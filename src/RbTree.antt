-- ===== src/RbTree.antt =====
-- src/rb_tree.c and inc/rb_tree.h: the red-black tree with parent pointers.
-- A `struct rb_tree_node_t` is a number, 0 is `nil`, and a head is the number of its `pre_root`.
-- Where the source has two pieces of code that differ by left and right, the model has one piece
-- with the side as its argument.
pub mod Shape
pub mod Frame
pub mod Relink
pub mod Rotate
pub mod Balance
pub mod Rebalance
pub mod Loop
pub mod Order
pub mod Keyed
pub mod Keys
pub mod Insert
pub mod Link
pub mod Insertion
pub mod Search
pub mod SearchBlocks
pub mod Neighbour
pub mod Removal
use x_os_tmp.Base.{
  ℕ, zero, suc, Bool, true, false, ◌==◌, ◌&&◌, ◌||◌, not, if◌then◌else◌, Option, none, some, Run,
  ok, panic, out_of_fuel, ◌>>=◌, set_at,
}

-- `enum _rb_tree_color`
pub data Color : Type 0 where
  red black : Color

abbrev pub is_red : Color → Bool
is_red red = true
is_red black = false

abbrev pub is_black : Color → Bool
is_black red = false
is_black black = true

pub data Side : Type 0 where
  left right : Side

abbrev pub opp : Side → Side
opp left = right
opp right = left

-- The fields of every node; `child left` is `left`, and `child right` is `right`.
pub record Nodes : Type 0 where
  pub color : ℕ → Color
  pub parent : ℕ → ℕ
  pub child : Side → ℕ → ℕ

abbrev pub nil : ℕ
nil = 0

abbrev pub set_color : ℕ → Color → Nodes → Nodes
set_color x c s = record s { color = set_at s.color x c }

abbrev pub set_parent : ℕ → ℕ → Nodes → Nodes
set_parent x p s = record s { parent = set_at s.parent x p }

-- The children with one pointer changed.
abbrev pub put : Side → ℕ → ℕ → (Side → ℕ → ℕ) → Side → ℕ → ℕ
put left x v f left = set_at (f left) x v
put left x v f right = f right
put right x v f left = f left
put right x v f right = set_at (f right) x v

abbrev pub set_child : Side → ℕ → ℕ → Nodes → Nodes
set_child d x v s = record s { child = put d x v s.child }

-- `if(p->left == old) p->left = new; else p->right = new;`
unfoldable pub relink : ℕ → ℕ → ℕ → Nodes → Nodes
relink p old new s =
    if s.child left p == old then set_child left p new s else set_child right p new s

-- `left_rotate` and `right_rotate`.
unfoldable pub rotate : Side → ℕ → Nodes → Nodes
rotate d node s =
    let tmp = s.child (opp d) node in
    let s₁ = set_child (opp d) node (s.child d tmp) s in
    let s₂ = set_parent (s₁.child d tmp) node s₁ in
    let s₃ = relink (s₂.parent node) node tmp s₂ in
    let s₄ = set_parent tmp (s₃.parent node) s₃ in
    let s₅ = set_parent node tmp s₄ in set_child d tmp node s₅

-- The end of a round of `rb_tree_rebalance`, with the parent on the side `d` of the grandparent.
unfoldable pub raise_parent : Side → ℕ → ℕ → Nodes → Nodes
raise_parent d parent grandparent s =
    set_color grandparent red (set_color parent black (rotate (opp d) grandparent s))

unfoldable pub rotate_up : Side → ℕ → ℕ → ℕ → Nodes → Nodes
unfolding raise_parent
rotate_up d node parent grandparent s =
    let s₁ = rotate d parent s in
    if s.child (opp d) parent == node
    then raise_parent d (s₁.parent parent) grandparent s₁
    else raise_parent d parent grandparent s

-- The side on which `x` stands below `p`, by the test of the source.
abbrev pub side_of : ℕ → ℕ → Nodes → Side
side_of p x s = if s.child left p == x then left else right

-- `while(1)` of `rb_tree_rebalance`.
pub rebalance_from : ℕ → ℕ → ℕ → Nodes → Run Nodes
rebalance_from zero root node s = out_of_fuel
rebalance_from (suc f) root node s =
    let parent = s.parent node in
    let grandparent = s.parent parent in
    let d = side_of grandparent parent s in
    let uncle = s.child (opp d) grandparent in
    let again =
      rebalance_from f root grandparent
        (set_color grandparent red (set_color parent black (set_color uncle black s))) in
    if node == root
    then ok (set_color node black s)
    else if is_black (s.color parent)
    then ok s
    else if is_red (s.color uncle)
    then again
    else ok (rotate_up d node parent grandparent s)

unfoldable pub rb_tree_rebalance : ℕ → ℕ → ℕ → Nodes → Run Nodes
unfolding rebalance_from
rb_tree_rebalance fuel root node s = rebalance_from fuel root node (set_color node red s)

unfoldable pub rb_tree_init : ℕ → ℕ → Nodes → Nodes
rb_tree_init head root s =
    let s₁ =
      set_child right head root
        (set_child left head root (set_parent head root (set_color head black s))) in
    set_child right root nil
      (set_child left root nil (set_color root black (set_parent root head s₁)))

-- `while(node->left != nil) node = node->left;`, and its mirror image.
pub outermost : ℕ → Side → ℕ → Nodes → Run ℕ
outermost zero d node s = out_of_fuel
outermost (suc f) d node s =
    let down = outermost f d (s.child d node) s in if s.child d node == nil then ok node else down

-- The climb of `rb_tree_next`, and its mirror image: `none` is NULL.
pub climb : ℕ → Side → ℕ → ℕ → Nodes → Run (Option ℕ)
climb zero d root node s = out_of_fuel
climb (suc f) d root node s =
    let up = climb f d root (s.parent node) s in
    if node == root
    then ok none
    else if s.child d (s.parent node) == node
    then ok (some (s.parent node))
    else up

-- The neighbour in the order: of the side right the next one, of the side left the previous one.
unfoldable pub neighbour : ℕ → Side → ℕ → ℕ → Nodes → Run (Option ℕ)
unfolding outermost climb
neighbour fuel d head node s =
    let below = (do x ← outermost fuel (opp d) (s.child d node) s; ok (some x)) in
    if s.child d node == nil then climb fuel (opp d) (s.child left head) node s else below

unfoldable pub rb_tree_next : ℕ → ℕ → ℕ → Nodes → Run (Option ℕ)
unfolding neighbour
rb_tree_next fuel head node s = neighbour fuel right head node s

unfoldable pub rb_tree_prev : ℕ → ℕ → ℕ → Nodes → Run (Option ℕ)
unfolding neighbour
rb_tree_prev fuel head node s = neighbour fuel left head node s
