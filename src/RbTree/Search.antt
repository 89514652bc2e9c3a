-- ===== src/RbTree/Search.antt =====
-- `pcinfo_rb_tree_find` as a search of the ordered list.
use x_os_tmp.Base.{
  ℕ, zero, suc, ◌^◌, ◌≤◌, ◌<◌, ◌≡◌, ◌≢◌, refl, sym, subst, ◌∙◌, ◌==◌, if◌then◌else◌, true, false,
  List, ◌∷◌, ◌++◌, length, arith, eq→==, ne→==, Bool-cases, inl, inr, Run, ok, All, All-append,
  All-imp, length-append, ==→eq, ==→ne, Option, none, some, In, In-append_left, In-append_right,
  In-middle, le→ltb,
}
use x_os_tmp.Kernel.{long_lt}
use x_os_tmp.RbTree.{left, right, Nodes, nil}
use x_os_tmp.RbTree.Shape.{Tree, leaf, bin, one_self, ne_of_one, occ, Sub}
use x_os_tmp.RbTree.Balance.{inorder}
use x_os_tmp.RbTree.Order.{Sorted, Sorted-left, Sorted-right, Sorted-before}
use x_os_tmp.RbTree.Keyed.{pid_less, pcinfo_find_from, pcinfo_rb_tree_find}
use x_os_tmp.RbTree.Insertion.{IsTree}
use x_os_tmp.RbTree.Keys.{long_lt-eq}

-- An answer is an element with the key, or says that there is none.
abbrev pub Answers : (ℕ → Type 0) → List ℕ → Option ℕ → Type 0
Answers P xs none = All (λ y. P y → ⊥) xs
Answers P xs (some p) = In p xs × P p

module _ (P : ℕ → Type 0) where
  pub Answers-left :
      (xs : List ℕ) (x : ℕ) (ys : List ℕ) (r : Option ℕ)
      → All (λ y. P y → ⊥) (x ∷ ys)
      → Answers P xs r
      → Answers P (xs ++ (x ∷ ys)) r
  Answers-left xs x ys none h a = All-append (λ y. P y → ⊥) xs (x ∷ ys) a h
  Answers-left xs x ys (some p) h a = (In-append_left p xs (x ∷ ys) a.0, a.1)

  pub Answers-right :
      (xs : List ℕ) (x : ℕ) (ys : List ℕ) (r : Option ℕ)
      → All (λ y. P y → ⊥) xs
      → (P x → ⊥)
      → Answers P ys r
      → Answers P (xs ++ (x ∷ ys)) r
  Answers-right xs x ys none h n a = All-append (λ y. P y → ⊥) xs (x ∷ ys) h (n, a)
  Answers-right xs x ys (some p) h n a = (In-append_right p xs (x ∷ ys) (inr a.0), a.1)

abbrev pub IsFound : (ℕ → Type 0) → List ℕ → Run (Option ℕ) → Type 0
IsFound P xs run = (r : Option ℕ) × (run ≡ ok r) × Answers P xs r

module _ (pids : ℕ → ℕ) (pid : ℕ) (s : Nodes) (small : pid < 2 ^ 32)
    (smalls : (p : ℕ) → pids p < 2 ^ 32) where
  abbrev HasPid : ℕ → Type 0
  HasPid y = pids y ≡ pid

  long_lt_self : (a : ℕ) → long_lt a a ≡ false
  long_lt_self a = le→ltb _ _ (omega arith)

  -- The keys from x on are other ones than a smaller key, and so are those up to x than a greater key.
  not_after :
      (x : ℕ) (ys : List ℕ)
      → long_lt pid (pids x) ≡ true
      → All (λ y. pid_less pids y x ≡ false) ys
      → All (λ y. HasPid y → ⊥) (x ∷ ys)
  not_after x ys h a = (
    (λ e. cc (subst (λ w. long_lt w (pids x) ≡ true) (sym e) h, long_lt_self (pids x))),
    All-imp ys (λ y n e. cc (subst (λ w. long_lt w (pids x) ≡ false) e n, h)) a,
  )

  not_before :
      (x : ℕ) (xs : List ℕ)
      → long_lt pid (pids x) ≡ false
      → pid ≢ pids x
      → All (λ y. pid_less pids x y ≡ false) xs
      → All (λ y. HasPid y → ⊥) xs
  not_before x xs h n = All-imp xs (λ y k e.
      n (long_lt-eq pid (pids x) small (smalls x) h (subst (λ w. long_lt (pids x) w ≡ false) e k)))

  find_from-IsFound :
      (t : Tree) (f q a : ℕ)
      → length (inorder t) ≤ f
      → 1 ≤ length (inorder t)
      → Sub s q a t
      → occ nil t ≡ 0
      → Sorted (pid_less pids) (inorder t)
      → IsFound HasPid (inorder t) (pcinfo_find_from f pids pid a s)
  unfolding pcinfo_find_from
  find_from-IsFound leaf f q a hf m h o srt = absurd (omega (arith, m))
  find_from-IsFound (bin c l x r) zero q a hf m h o srt = absurd (omega (arith, hf, m))
  find_from-IsFound (bin c l x r) (suc f) q a hf m h o srt =
      rw (h.0) (elim (Bool-cases (pid == pids x)) [
        | inl e ↦
            (some x, rw e refl, (In-middle (inorder l) x (inorder r), sym (==→eq pid (pids x) e)))
        | inr e ↦ elim (Bool-cases (long_lt pid (pids x))) [
          | inl b ↦
              let after =
                not_after x (inorder r) b
                  (Sorted-right (pid_less pids) (inorder l) (x ∷ inorder r) srt).0 in
              let k = child l f x (s.child left x) h.3 (omega arith) (λ m'.
                find_from-IsFound l f x (s.child left x)
                  (omega (arith, hf, length-append (inorder l) (x ∷ inorder r))) m' h.3
                  (omega arith) (Sorted-left (pid_less pids) (inorder l) (x ∷ inorder r) srt)) in
              (k.0, rw (e, b) (k.1), Answers-left HasPid (inorder l) x (inorder r) k.0 after k.2)
          | inr b ↦
              let before =
                not_before x (inorder l) b (==→ne pid (pids x) e)
                  (Sorted-before (pid_less pids) (inorder l) x (inorder r) srt) in
              let k = child r f x (s.child right x) h.4 (omega arith) (λ m'.
                find_from-IsFound r f x (s.child right x)
                  (omega (arith, hf, length-append (inorder l) (x ∷ inorder r))) m' h.4
                  (omega arith) (Sorted-right (pid_less pids) (inorder l) (x ∷ inorder r) srt).1) in
              (
                k.0,
                rw (e, b) (k.1),
                Answers-right HasPid (inorder l) x (inorder r) k.0 before
                    (λ g. ==→ne pid (pids x) e (sym g)) k.2,
              )
        ]
      ])
    where
      -- The step to a child, after the look at it.
      child :
          (t : Tree) (f q a : ℕ)
          → Sub s q a t
          → occ nil t ≡ 0
          → (1 ≤ length (inorder t) → IsFound HasPid (inorder t) (pcinfo_find_from f pids pid a s))
          → IsFound HasPid
              (inorder t)
              (if a == nil then ok none else pcinfo_find_from f pids pid a s)
      child leaf f q a h o ih = (none, rw (eq→== a nil h) refl, tt)
      child (bin c l x r) f q a h o ih =
          rw (ne→== a nil (λ e. ne_of_one nil x (omega arith) (sym e ∙ h.0)))
            (ih (omega (arith, length-append (inorder l) (x ∷ inorder r))))

-- On a red-black tree with a root, in the order of its pids, which are numbers of 32 bits, and
-- with fuel of the number of nodes, pcinfo_rb_tree_find ends, and answers a node of the tree with
-- the pid, or none when no node has it.
pub pcinfo_rb_tree_find-IsFound :
    (fuel : ℕ) (pids : ℕ → ℕ) (head pid : ℕ) (s : Nodes) (t : Tree)
    → IsTree s head t
    → 1 ≤ length (inorder t)
    → Sorted (pid_less pids) (inorder t)
    → pid < 2 ^ 32
    → ((p : ℕ) → pids p < 2 ^ 32)
    → length (inorder t) ≤ fuel
    → IsFound (λ y. pids y ≡ pid) (inorder t) (pcinfo_rb_tree_find fuel pids head pid s)
unfolding pcinfo_rb_tree_find
pcinfo_rb_tree_find-IsFound fuel pids head pid s t h m srt small smalls hf =
    find_from-IsFound pids pid s small smalls t fuel head (s.child left head) hf m h.whole.sub
      (omega (arith, h.once nil, one_self nil)) srt
