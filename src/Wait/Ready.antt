-- ===== src/Wait/Ready.antt =====
-- `ready_processes` takes from its slot of the time wheel the processes that are due, at most as
-- many as there is room for, and leaves the rest in their order.
use x_os_tmp.Base.{
  ℕ, zero, suc, ◌<◌, ◌≡◌, refl, sym, ap, subst, List, [], ◌∷◌, ◌++◌, length, arith, All, Bool-cases,
  inl, inr, eq→==, ok,
}
use mathlib.Core.List.{append_assoc}
use x_os_tmp.CircularList.{head, node, Links, circular_list_remove}
use x_os_tmp.CircularList.Seg.{Ring, ref_eq_self}
use x_os_tmp.CircularList.Edit.{first, Seg-first}
use x_os_tmp.CircularList.Rings.{
  Rings, with_row, with_row_self, with_row-with_row, with_row_same, Rings-ext, Rings-remove,
  next-remove_self, next-Ring,
}
use x_os_tmp.Kernel.{Kernel, process_waiting}
use x_os_tmp.Wait.{wheel_hash, ready_from, ready_processes}
use x_os_tmp.Wait.Collect.{later, taken, left}

module _ (k : Kernel) (t : ℕ → List ℕ) where
  abbrev with_links : Links → Kernel
  with_links l = record k { sleep_links = l }

  -- From a place of the slot: what is behind it stays, and the rest is sorted into two.
  abbrev SortsFrom : ℕ → ℕ → List ℕ → List ℕ → Links → Type 0
  SortsFrom f room xs ps l =
      (l' : Links) × (ready_from f room (first ps (head (wheel_hash k.jiffies))) (with_links l)
        ≡ ok (taken (later k) room ps, with_links l'))
      × Rings l' 513 (with_row t (wheel_hash k.jiffies) (xs ++ left (later k) room ps))

  ready_from-sorts :
      (f room : ℕ) (xs ps : List ℕ) (l : Links)
      → length ps < f
      → All (λ p. k.state p ≡ process_waiting) ps
      → Rings l 513 (with_row t (wheel_hash k.jiffies) (xs ++ ps))
      → SortsFrom f room xs ps l
  unfolding ready_from
  ready_from-sorts zero room xs ps l h a rs = absurd (omega arith)
  ready_from-sorts (suc f) zero xs ps l h a rs = (l, refl, rs)
  ready_from-sorts (suc f) (suc room) xs [] l h a rs =
      (l, rw (ref_eq_self (head (wheel_hash k.jiffies))) refl, rs)
  ready_from-sorts (suc f) (suc room) xs (p ∷ ps) l h a rs = elim (Bool-cases (later k p)) [
    | inl e ↦
        let (l', r, rs') = ready_from-sorts f (suc room) (xs ++ (p ∷ [])) ps l (omega arith) a.1 (
          Rings-ext l 513 _ _
            (λ j.
              ap (λ row. with_row t (wheel_hash k.jiffies) row j)
                (sym (append_assoc xs (p ∷ []) ps)))
            rs) in
        (
          l',
          rw e (rw (next-Ring l (wheel_hash k.jiffies) xs p ps ring) r),
          rw e (
              Rings-ext l' 513 _ _
                (λ j.
                  ap (λ row. with_row t (wheel_hash k.jiffies) row j)
                    (append_assoc xs (p ∷ []) (left (later k) (suc room) ps)))
                rs'),
        )
    | inr e ↦
        let (l', r, rs') =
          ready_from-sorts f room xs ps (circular_list_remove (node p) l) (omega arith) a.1 (
            Rings-ext _ 513 _ _
              (with_row-with_row t (wheel_hash k.jiffies) (xs ++ (p ∷ ps)) (xs ++ ps))
              (Rings-remove l 513 _ (wheel_hash k.jiffies) (omega arith) rs xs p ps
                (with_row_self t (wheel_hash k.jiffies) (xs ++ (p ∷ ps))))) in
        (
          l',
          rw (e, eq→== _ _ (a.0), next-remove_self l (wheel_hash k.jiffies) xs p ps ring, r) refl,
          rw e rs',
        )
  ]
    where
      ring : Ring l (wheel_hash k.jiffies) (xs ++ (p ∷ ps))
      ring =
          subst (Ring l (wheel_hash k.jiffies)) (with_row_self t (wheel_hash k.jiffies) _)
            (rs.ring (wheel_hash k.jiffies) (omega arith))

  -- With fuel above the length of the current slot of the time wheel and all of it waiting,
  -- ready_processes takes the processes that are due, at most as many as there is room for and in
  -- their order, and leaves every other list and the rest of the slot as they were.
  pub ready_processes-sorts :
      (f room : ℕ)
      → length (t (wheel_hash k.jiffies)) < f
      → All (λ p. k.state p ≡ process_waiting) (t (wheel_hash k.jiffies))
      → Rings k.sleep_links 513 t
      → (l' : Links) × (ready_processes f room k
          ≡ ok (taken (later k) room (t (wheel_hash k.jiffies)), record k { sleep_links = l' }))
        × Rings l' 513
            (with_row t (wheel_hash k.jiffies) (left (later k) room (t (wheel_hash k.jiffies))))
  unfolding ready_processes
  ready_processes-sorts f room h a rs =
      rw (Seg-first k.sleep_links _ _ _ ((rs.ring (wheel_hash k.jiffies) (omega arith)).seg)) (
        ready_from-sorts f room [] (t (wheel_hash k.jiffies)) k.sleep_links h a
          (Rings-ext k.sleep_links 513 t _ (with_row_same t _ _ refl) rs))
