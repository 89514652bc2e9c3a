-- ===== src/RbTree/SearchBlocks.antt =====
-- `blkbuffer_rb_tree_find` as a search of the ordered list.
use x_os_tmp.Base.{
  ℕ, zero, suc, ◌/◌, ◌^◌, ◌≤◌, ◌<◌, ◌≡◌, refl, sym, ap, Bool, true, false, List, ◌∷◌, length, arith,
  eq→==, ne→==, Bool-cases, inl, inr, ◌⊎◌, All, All-imp, length-append, none, some, In-middle,
}
use Prim.Native.Nat.{bit_or}
use x_os_tmp.RbTree.{left, right, Nodes, nil}
use x_os_tmp.RbTree.Shape.{Tree, leaf, bin, one_self, ne_of_one, occ, Sub}
use x_os_tmp.RbTree.Balance.{inorder}
use x_os_tmp.RbTree.Order.{Sorted, Sorted-left, Sorted-right, Sorted-before}
use x_os_tmp.RbTree.Keyed.{blk_less, blk_less2, blk_find_from, wanted_type, blkbuffer_rb_tree_find}
use x_os_tmp.RbTree.Insertion.{IsTree}
use x_os_tmp.RbTree.Keys.{blk_less-ge, blk_less-of_ge}
use x_os_tmp.RbTree.Search.{Answers-left, Answers-right, IsFound}

module _ (types numbers : ℕ → ℕ) (d b : ℕ) (s : Nodes) where
  abbrev HasKey : ℕ → Type 0
  HasKey y = (types y ≡ d) × (numbers y ≡ b)

  less_self : (x : ℕ) → blk_less (types x) (numbers x) (types x) (numbers x) ≡ false
  less_self x = blk_less-of_ge (types x) (numbers x) (types x) (numbers x) (inr (refl, omega arith))

  key_not_after :
      (x : ℕ) (ys : List ℕ)
      → blk_less d b (types x) (numbers x) ≡ true
      → All (λ y. blk_less2 types numbers y x ≡ false) ys
      → All (λ y. HasKey y → ⊥) (x ∷ ys)
  key_not_after x ys h a = (
    (λ e. cc (rw (← e.0, ← e.1) at h, less_self x)),
    All-imp ys (λ y n e. cc (rw (e.0, e.1) at n, h)) a,
  )

  key_not_before :
      (x : ℕ) (xs : List ℕ)
      → blk_less (types x) (numbers x) d b ≡ true
      → All (λ y. blk_less2 types numbers x y ≡ false) xs
      → All (λ y. HasKey y → ⊥) xs
  key_not_before x xs h = All-imp xs (λ y n e. cc (rw (e.0, e.1) at n, h))

  not_key_at : (x : ℕ) → blk_less (types x) (numbers x) d b ≡ true → HasKey x → ⊥
  not_key_at x h e = cc (rw (← e.0, ← e.1) at h, less_self x)

  key_at :
      (x : ℕ)
      → blk_less d b (types x) (numbers x) ≡ false
      → blk_less (types x) (numbers x) d b ≡ false
      → HasKey x
  key_at x h k = same (blk_less-ge _ _ _ _ h) (blk_less-ge _ _ _ _ k)
    where
      same :
          (types x < d) ⊎ ((d ≡ types x) × (numbers x ≤ b))
          → (d < types x) ⊎ ((types x ≡ d) × (b ≤ numbers x))
          → HasKey x
      same (inl u) (inl v) = absurd (omega (arith, u, v))
      same (inl u) (inr v) = absurd (omega (arith, u, v.0))
      same (inr u) (inl v) = absurd (omega (arith, u.0, v))
      same (inr u) (inr v) = (v.0, omega (arith, u.1, v.1))

  blk_find_from-IsFound :
      (t : Tree) (f q a : ℕ)
      → length (inorder t) < f
      → Sub s q a t
      → occ nil t ≡ 0
      → Sorted (blk_less2 types numbers) (inorder t)
      → IsFound HasKey (inorder t) (blk_find_from f types numbers d b a s)
  unfolding blk_find_from
  blk_find_from-IsFound t zero q a hf h o srt = absurd (omega (arith, hf))
  blk_find_from-IsFound leaf (suc f) q a hf h o srt = (none, rw (eq→== a nil h) refl, tt)
  blk_find_from-IsFound (bin c l x r) (suc f) q a hf h o srt =
      rw (h.0, ne→== x nil (λ e. ne_of_one nil x (omega arith) (sym e)))
        (elim (Bool-cases (blk_less d b (types x) (numbers x))) [
          | inl e ↦
              let k =
                blk_find_from-IsFound l f x (s.child left x)
                  (omega (arith, hf, length-append (inorder l) (x ∷ inorder r))) h.3 (omega arith)
                  (Sorted-left less (inorder l) (x ∷ inorder r) srt) in
              (
                k.0,
                rw e (k.1),
                Answers-left HasKey (inorder l) x (inorder r) k.0
                    (key_not_after x (inorder r) e
                      (Sorted-right less (inorder l) (x ∷ inorder r) srt).0)
                    k.2,
              )
          | inr e ↦ elim (Bool-cases (blk_less (types x) (numbers x) d b)) [
            | inl g ↦
                let k =
                  blk_find_from-IsFound r f x (s.child right x)
                    (omega (arith, hf, length-append (inorder l) (x ∷ inorder r))) h.4 (omega arith)
                    (Sorted-right less (inorder l) (x ∷ inorder r) srt).1 in
                (
                  k.0,
                  rw (e, g) (k.1),
                  Answers-right HasKey (inorder l) x (inorder r) k.0
                      (key_not_before x (inorder l) g
                        (Sorted-before less (inorder l) x (inorder r) srt))
                      (not_key_at x g) k.2,
                )
            | inr g ↦ (some x, rw (e, g) refl, (In-middle (inorder l) x (inorder r), key_at x e g))
          ]
        ])
    where
      less : ℕ → ℕ → Bool
      less = blk_less2 types numbers

-- On a red-black tree in the order of the driver types and block numbers, and with fuel above the
-- number of nodes, blkbuffer_rb_tree_find ends, and answers a node with the block number and the
-- driver type that it computes, or none when there is none.
pub blkbuffer_rb_tree_find-IsFound :
    (fuel : ℕ) (types numbers : ℕ → ℕ) (head main_driver sub_driver block_no : ℕ) (s : Nodes)
    (t : Tree)
    → IsTree s head t
    → Sorted (blk_less2 types numbers) (inorder t)
    → length (inorder t) < fuel
    → IsFound
        (λ y. (types y ≡ wanted_type main_driver sub_driver) × (numbers y ≡ block_no))
        (inorder t)
        (blkbuffer_rb_tree_find fuel types numbers head main_driver sub_driver block_no s)
unfolding blkbuffer_rb_tree_find
blkbuffer_rb_tree_find-IsFound fuel types numbers head main_driver sub_driver block_no s t h srt
      hf =
    blk_find_from-IsFound types numbers (wanted_type main_driver sub_driver) block_no s t fuel head
      (s.child left head) hf h.whole.sub (omega (arith, h.once nil, one_self nil)) srt

-- For a main driver of 16 bits, blkbuffer_rb_tree_find answers what it answers for the main driver
-- 0.
pub blkbuffer_rb_tree_find-main_driver :
    (fuel : ℕ) (types numbers : ℕ → ℕ) (head main_driver sub_driver block_no : ℕ) (s : Nodes)
    → main_driver < 2 ^ 16
    → blkbuffer_rb_tree_find fuel types numbers head main_driver sub_driver block_no s
      ≡ blkbuffer_rb_tree_find fuel types numbers head 0 sub_driver block_no s
unfolding blkbuffer_rb_tree_find
blkbuffer_rb_tree_find-main_driver fuel types numbers head main_driver sub_driver block_no s h =
    let e : main_driver / 2 ^ 16 ≡ 0 / 2 ^ 16 = omega (arith, h) in
    ap (λ w. blk_find_from fuel types numbers (bit_or sub_driver w) block_no (s.child left head) s)
      e
