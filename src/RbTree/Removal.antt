-- ===== src/RbTree/Removal.antt =====
-- `rb_tree_remove` of src/rb_tree.c, with `swap_node`, `get_min` and `rb_rmfix`.
use x_os_tmp.Base.{
  ℕ, zero, suc, ◌==◌, ◌&&◌, ◌||◌, if◌then◌else◌, Run, ok, panic, out_of_fuel, ◌>>=◌,
}
use x_os_tmp.RbTree.{
  red, black, is_red, is_black, Side, left, right, opp, Nodes, nil, set_color, set_parent,
  set_child, relink, rotate, outermost,
}

-- The fields of `node` become those of `from` in the store `old`.
abbrev copy : ℕ → ℕ → Nodes → Nodes → Nodes
copy node from old s = set_child right node (old.child right from) (
    set_child left node (old.child left from)
      (set_parent node (old.parent from) (set_color node (old.color from) s)))

unfoldable pub swap_node : ℕ → ℕ → Nodes → Nodes
unfolding relink
swap_node a b s =
    let s₁ = relink (s.parent a) a b s in
    let s₂ = relink (s₁.parent b) b a s₁ in
    let s₃ = copy b a s₂ (copy a b s₂ s₂) in
    let s₄ = set_parent (s₃.child left a) a s₃ in
    let s₅ = set_parent (s₄.child right a) a s₄ in
    let s₆ = set_parent (s₅.child left b) b s₅ in set_parent (s₆.child right b) b s₆

-- The least node on the right, when it is the right child itself, changes places with the node.
unfoldable pub exchange : ℕ → ℕ → Nodes → Nodes
unfolding relink
exchange node min s =
    let s₁ = set_child right node (s.child right min) s in
    let s₂ = set_parent (s₁.child right min) node s₁ in
    let s₃ = set_child left min (s₂.child left node) s₂ in
    let s₄ = set_parent (s₃.child left node) min s₃ in
    let s₅ = set_parent min (s₄.parent node) s₄ in
    let s₆ = relink (s₅.parent node) node min s₅ in
    let s₇ = set_parent node min (set_child right min node s₆) in
    let ctmp = s₇.color node in
    set_child left node nil (set_color min ctmp (set_color node (s₇.color min) s₇))

-- A red brother of the node becomes its grandparent.
unfoldable pub raise_red : Side → ℕ → ℕ → Nodes → Nodes
unfolding rotate
raise_red d parent brother s =
    if is_red (s.color brother)
    then rotate d parent (set_color parent red (set_color brother black s))
    else s

-- The end of `rb_rmfix`: the brother on the side other than d has a red child.
unfoldable pub borrow : Side → ℕ → Nodes → Nodes
unfolding rotate
borrow d parent s =
    let first = s.child (opp d) parent in
    let near = s.child d first in
    let s₁ =
      if is_red (s.color near) && is_black (s.color (s.child (opp d) first))
      then rotate (opp d) first (set_color near black (set_color first red s))
      else s in
    let brother = s₁.child (opp d) parent in
    let s₂ = rotate d parent s₁ in
    let s₃ = set_color parent black (set_color brother (s₂.color parent) s₂) in
    set_color (s₃.child (opp d) brother) black s₃

-- `while(1)` of `rb_rmfix`; d is the side of the node below its parent.
unfoldable pub rmfix_from : ℕ → ℕ → ℕ → Nodes → Run Nodes
unfolding raise_red borrow
rmfix_from zero root node s = out_of_fuel
rmfix_from (suc f) root node s =
    let parent = s.parent node in
    let d = if node == s.child left parent then left else right in
    let s₁ = raise_red d parent (s.child (opp d) parent) s in
    let brother = s₁.child (opp d) parent in
    let again = rmfix_from f root parent (set_color brother red s₁) in
    if (node == root) || is_red (s.color node)
    then ok (set_color node black s)
    else if is_black (s₁.color (s₁.child left brother))
        && is_black (s₁.color (s₁.child right brother))
    then again
    else ok (borrow d parent s₁)

-- A node with one child at most gives its place to the child on the side d.
abbrev unlink : ℕ → ℕ → Side → ℕ → Nodes → Run Nodes
unlink fuel head d node s =
    let s₁ = set_parent (s.child d node) (s.parent node) s in
    let s₂ = relink (s₁.parent node) node (s₁.child d node) s₁ in
    let fixed = rmfix_from fuel (s₂.child left head) (s₂.child d node) s₂ in
    if is_black (s₂.color node) then fixed else ok s₂

-- With two children left, `onodec` would be read without a value.
abbrev take_out : ℕ → ℕ → ℕ → Nodes → Run Nodes
take_out fuel head node s =
    if s.child right node == nil
    then unlink fuel head left node s
    else if s.child left node == nil
    then unlink fuel head right node s
    else panic

unfoldable pub rb_tree_remove : ℕ → ℕ → ℕ → Nodes → Run Nodes
unfolding swap_node exchange rmfix_from relink outermost
rb_tree_remove fuel head node s =
    let swapped = (do
      min ← outermost fuel left (s.child right node) s
      let moved = if min == s.child right node then exchange node min s else swap_node node min s
      take_out fuel head node moved) in
    if (s.child left node == nil) || (s.child right node == nil)
    then take_out fuel head node s
    else swapped
