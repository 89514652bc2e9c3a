-- ===== src/RbTree/Keyed.antt =====
-- src/pcinfo_rb_tree.c and src/blkbuffer_rb_tree.c: the trees of the processes and of the blocks.
-- Their loops differ in the test "less" alone, which is an argument here.
use x_os_tmp.Base.{
  ℕ, zero, suc, ◌/◌, ◌^◌, ◌==◌, ltb, if◌then◌else◌, Bool, Option, none, some, Run, ok, out_of_fuel,
  ◌>>=◌,
}
use Prim.Native.Nat.{bit_or}
use x_os_tmp.Kernel.{long_lt}
use x_os_tmp.RbTree.{
  left, right, Nodes, nil, set_parent, set_child, rb_tree_rebalance, outermost, climb,
}

-- The loop of the two insertions, up to `node->parent = p`.
unfoldable pub insert_below : ℕ → (ℕ → ℕ → Bool) → ℕ → ℕ → Nodes → Run Nodes
insert_below zero less node p s = out_of_fuel
insert_below (suc f) less node p s =
    let d = if less node p then left else right in
    let down = insert_below f less node (s.child d p) s in
    if s.child d p == nil then ok (set_parent node p (set_child d p node s)) else down

unfoldable pub insert_with : ℕ → (ℕ → ℕ → Bool) → ℕ → ℕ → Nodes → Run Nodes
unfolding insert_below rb_tree_rebalance
insert_with fuel less head node s = do
  s₁ ← insert_below fuel less node (s.child left head) s
  rb_tree_rebalance fuel (s₁.child left head) node s₁

-- The keys of the nodes: `pid`, and the block's `driver_type` and `block_no`.
abbrev pub pid_less : (ℕ → ℕ) → ℕ → ℕ → Bool
pid_less pid a b = long_lt (pid a) (pid b)

abbrev pub blk_less : ℕ → ℕ → ℕ → ℕ → Bool
blk_less driver_type1 block_no1 driver_type2 block_no2 =
    if driver_type1 == driver_type2 then ltb block_no1 block_no2 else ltb driver_type1 driver_type2

abbrev pub blk_less2 : (ℕ → ℕ) → (ℕ → ℕ) → ℕ → ℕ → Bool
blk_less2 driver_type block_no a b =
    blk_less (driver_type a) (block_no a) (driver_type b) (block_no b)

unfoldable pub pcinfo_rb_tree_insert : ℕ → (ℕ → ℕ) → ℕ → ℕ → Nodes → Run Nodes
unfolding insert_with
pcinfo_rb_tree_insert fuel pid head node s = insert_with fuel (pid_less pid) head node s

unfoldable pub blkbuffer_rb_tree_insert : ℕ → (ℕ → ℕ) → (ℕ → ℕ) → ℕ → ℕ → Nodes → Run Nodes
unfolding insert_with
blkbuffer_rb_tree_insert fuel driver_type block_no head node s =
    insert_with fuel (blk_less2 driver_type block_no) head node s

-- `while(1)` of `pcinfo_rb_tree_find`: it looks at a child before it goes there.
unfoldable pub pcinfo_find_from : ℕ → (ℕ → ℕ) → ℕ → ℕ → Nodes → Run (Option ℕ)
pcinfo_find_from zero pids pid p s = out_of_fuel
pcinfo_find_from (suc f) pids pid p s =
    let d = if long_lt pid (pids p) then left else right in
    let down = pcinfo_find_from f pids pid (s.child d p) s in
    if pid == pids p then ok (some p) else if s.child d p == nil then ok none else down

unfoldable pub pcinfo_rb_tree_find : ℕ → (ℕ → ℕ) → ℕ → ℕ → Nodes → Run (Option ℕ)
unfolding pcinfo_find_from
pcinfo_rb_tree_find fuel pids head pid s = pcinfo_find_from fuel pids pid (s.child left head) s

-- `while(p != nil)` of `blkbuffer_rb_tree_find`.
unfoldable pub blk_find_from : ℕ → (ℕ → ℕ) → (ℕ → ℕ) → ℕ → ℕ → ℕ → Nodes → Run (Option ℕ)
blk_find_from zero types numbers driver_type block_no p s = out_of_fuel
blk_find_from (suc f) types numbers driver_type block_no p s =
    let go_left = blk_find_from f types numbers driver_type block_no (s.child left p) s in
    let go_right = blk_find_from f types numbers driver_type block_no (s.child right p) s in
    if p == nil
    then ok none
    else if blk_less driver_type block_no (types p) (numbers p)
    then go_left
    else if blk_less (types p) (numbers p) driver_type block_no
    then go_right
    else ok (some p)

-- `sub_driver | main_driver >> 16`
abbrev pub wanted_type : ℕ → ℕ → ℕ
wanted_type main_driver sub_driver = bit_or sub_driver (main_driver / 2 ^ 16)

unfoldable pub blkbuffer_rb_tree_find :
    ℕ → (ℕ → ℕ) → (ℕ → ℕ) → ℕ → ℕ → ℕ → ℕ → Nodes → Run (Option ℕ)
unfolding blk_find_from
blkbuffer_rb_tree_find fuel types numbers head main_driver sub_driver block_no s =
    blk_find_from fuel types numbers (wanted_type main_driver sub_driver) block_no
      (s.child left head) s

-- The code of `rb_tree_next` and `rb_tree_prev` once more.
unfoldable pub blkbuffer_rb_tree_next : ℕ → ℕ → ℕ → Nodes → Run (Option ℕ)
unfolding outermost climb
blkbuffer_rb_tree_next fuel head node s =
    let below = (do x ← outermost fuel left (s.child right node) s; ok (some x)) in
    if s.child right node == nil then climb fuel left (s.child left head) node s else below

unfoldable pub blkbuffer_rb_tree_prev : ℕ → ℕ → ℕ → Nodes → Run (Option ℕ)
unfolding outermost climb
blkbuffer_rb_tree_prev fuel head node s =
    let below = (do x ← outermost fuel right (s.child left node) s; ok (some x)) in
    if s.child left node == nil then climb fuel right (s.child left head) node s else below
