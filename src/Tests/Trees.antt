-- ===== src/Tests/Trees.antt =====
-- A tree of two nodes, a black one above a red one, and the trees that come of it.
use x_os_tmp.Base.{
  ◌>>=◌, ◌++◌, some, none, List, ℕ, ◌^◌, ◌<◌, ◌≡◌, refl, ◌==◌, if◌then◌else◌, [], ◌∷◌, arith, ok,
  none,
}
use x_os_tmp.RbTree.Removal.{rb_tree_remove}
use x_os_tmp.RbTree.{
  Color, rb_tree_next, rb_tree_prev, red, black, Side, left, right, Nodes, nil, rebalance_from,
}
use x_os_tmp.RbTree.Shape.{Tree, leaf, bin, frame, one, one_self, Once}
use x_os_tmp.RbTree.Balance.{rebalanced}
use x_os_tmp.RbTree.Rebalance.{Whole}
use x_os_tmp.RbTree.Loop.{rebalance_from-Whole}
use x_os_tmp.RbTree.Keyed.{
  pid_less, pcinfo_rb_tree_insert, pcinfo_rb_tree_find, blkbuffer_rb_tree_find, wanted_type,
}
use x_os_tmp.RbTree.Insertion.{IsTree, IsNew, Inserted, pcinfo_rb_tree_insert-Inserted}
use x_os_tmp.RbTree.Neighbour.{rb_tree_next_prev-first}
use x_os_tmp.RbTree.Search.{IsFound, pcinfo_rb_tree_find-IsFound}
use x_os_tmp.RbTree.SearchBlocks.{blkbuffer_rb_tree_find-IsFound}

abbrev pair_child : Side → ℕ → ℕ
pair_child left z = if z == 1 then 2 else 0
pair_child right z = if z == 2 then 3 else 0

-- The head is 1, the root is 2 and its right child is 3; a node has its number as its key.
abbrev pair : Nodes
pair = record {
  color = λ z. if z == 3 then red else black;
  parent = λ z. if z == 3 then 2 else if z == 2 then 1 else 0;
  child = pair_child;
}

abbrev pair_tree : Tree
pair_tree = bin black leaf 2 (bin red leaf 3 leaf)

pair-Once : Once 1 pair_tree []
unfolding one
pair-Once z = ground arith

three-Once : Once 1 (bin red leaf 3 leaf) (frame right black 2 leaf ∷ [])
unfolding one
three-Once z = ground arith

pair-IsTree : IsTree pair 1 pair_tree
pair-IsTree = record {
  whole = record {
    sub = (refl, refl, refl, refl, (refl, refl, refl, refl, refl));
    nil_black = refl;
  };
  once = pair-Once;
  balanced = (1, (refl, (refl, refl, refl, refl)), refl);
}

four-IsNew : IsNew pair 1 pair_tree 4
unfolding one
four-IsNew = record { absent = refl; bare = λ e. bare_of e }
  where
    bare_of : (e : Side) → pair.child e 4 ≡ nil
    bare_of left = refl
    bare_of right = refl

abbrev key : ℕ → ℕ
key z = if z == 4 then 4 else if z == 3 then 3 else 2

key_small : (p : ℕ) → key p < 2 ^ 32
key_small p = ground arith

pcinfo_rb_tree_insert-Inserted_example :
    Inserted (pid_less key) (pcinfo_rb_tree_insert 3 key 1 4 pair) 1 4 pair_tree
pcinfo_rb_tree_insert-Inserted_example =
    pcinfo_rb_tree_insert-Inserted 3 key 1 4 pair pair_tree pair-IsTree (omega arith)
      ((refl, tt), (tt, tt)) four-IsNew (omega arith)

pcinfo_rb_tree_find-IsFound_example :
    IsFound (λ y. key y ≡ 3) (2 ∷ 3 ∷ []) (pcinfo_rb_tree_find 2 key 1 3 pair)
pcinfo_rb_tree_find-IsFound_example =
    pcinfo_rb_tree_find-IsFound 2 key 1 3 pair pair_tree pair-IsTree (omega arith)
      ((refl, tt), (tt, tt)) (omega arith) key_small (omega arith)

blkbuffer_rb_tree_find-IsFound_example :
    IsFound
      (λ y. (0 ≡ wanted_type 0 0) × (key y ≡ 3))
      (2 ∷ 3 ∷ [])
      (blkbuffer_rb_tree_find 3 (λ z. 0) key 1 0 0 3 pair)
blkbuffer_rb_tree_find-IsFound_example =
    blkbuffer_rb_tree_find-IsFound 3 (λ z. 0) key 1 0 0 3 pair pair_tree pair-IsTree
      ((refl, tt), (tt, tt)) (omega arith)

-- The block 3 of the main driver 1 is in the tree, and it is not found.
block_missed : blkbuffer_rb_tree_find 3 (λ z. 65536) key 1 1 0 3 pair ≡ ok none
unfolding blkbuffer_rb_tree_find
block_missed = refl

rebalance_from-Whole_example :
    (s' : Nodes) × (rebalance_from 2 2 3 pair ≡ ok s')
    × Whole s' 1 (rebalanced (frame right black 2 leaf ∷ []) (bin red leaf 3 leaf))
rebalance_from-Whole_example =
    rebalance_from-Whole (frame right black 2 leaf ∷ []) 2 2 pair 1 2 3 0 (bin red leaf 3 leaf)
      (omega arith) refl
      (record {
        sub = (refl, refl, refl, refl, refl);
        hole = (refl, refl, refl, refl, (refl, refl));
        nil_black = refl;
      })
      three-Once (omega (arith, one_self 3)) refl (refl, tt)

rb_tree_next_prev-first_example :
    (rb_tree_next 2 1 2 pair ≡ ok (some 3))
    × ((before : List ℕ) × (2 ∷ 3 ∷ [] ≡ before ++ (2 ∷ 3 ∷ [])))
    × (rb_tree_prev 2 1 2 pair ≡ ok none)
    × ((before : List ℕ) × (3 ∷ 2 ∷ [] ≡ before ++ (2 ∷ [])))
rb_tree_next_prev-first_example =
    rb_tree_next_prev-first pair 1 [] black leaf 2 (bin red leaf 3 leaf) 2 pair-IsTree (omega arith)
      (omega arith) (omega arith)

abbrev shade : Color → ℕ
shade red = 0
shade black = 1

-- Without the red node the root is alone, and without the root the red node is the black root.
red_removed :
    (do s ← rb_tree_remove 3 1 3 pair; ok (s.child left 1 ∷ s.child right 2 ∷ [])) ≡ ok (2 ∷ 0 ∷ [])
unfolding rb_tree_remove
red_removed = refl

root_removed :
    (do s ← rb_tree_remove 3 1 2 pair; ok (s.child left 1 ∷ s.parent 3 ∷ shade (s.color 3) ∷ []))
    ≡ ok (3 ∷ 1 ∷ 1 ∷ [])
unfolding rb_tree_remove
root_removed = refl

-- Between two children the root changes places with the next node.
abbrev three_child : Side → ℕ → ℕ
three_child left z = if z == 1 then 2 else if z == 2 then 3 else 0
three_child right z = if z == 2 then 4 else 0

abbrev three : Nodes
three = record {
  color = λ z. if z == 2 then black else if z == 0 then black else red;
  parent = λ z. if z == 3 then 2 else if z == 4 then 2 else if z == 2 then 1 else 0;
  child = three_child;
}

middle_removed :
    (do
      s ← rb_tree_remove 3 1 2 three
      ok (s.child left 1 ∷ s.child left 4 ∷ s.child right 4 ∷ shade (s.color 4) ∷ s.parent 3 ∷ []))
    ≡ ok (4 ∷ 3 ∷ 0 ∷ 1 ∷ 4 ∷ [])
unfolding rb_tree_remove
middle_removed = refl
