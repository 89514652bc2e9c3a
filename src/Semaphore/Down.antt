-- ===== src/Semaphore/Down.antt =====
-- `ksemaphore_down`: what it grants at once, what it refuses, and where it queues.
use x_os_tmp.Base.{
  ℕ, ◌-◌, ◌^◌, ◌<◌, ◌≡◌, refl, sym, ◌∙◌, ◌==◌, leb, ◌&&◌, ◌⊎◌, le→ltb, Bool, true, List, [], ◌∷◌,
  ◌++◌, if◌then◌else◌, arith, Bool-cases, inl, inr, ==→eq, ==→ne, lt→ltb, Run, ok, panic, set_at, ℤ,
  negsuc,
}
use x_os_tmp.CircularList.Seg.{Ring}
use x_os_tmp.CircularList.Rings.{Rings}
use x_os_tmp.CircularList.Scan.{is_empty, is_empty-Ring}
use x_os_tmp.Kernel.{Kernel, process_waiting, sub32, eagain}
use x_os_tmp.Semaphore.{Call, to_int, returns, blocks, ksemaphore_down, is_negative}

-- The demand can be met at once: nobody waits and there are units enough.
abbrev pub grants : ℕ → ℕ → List ℕ → Kernel → Bool
grants s demand ps k = leb demand (k.surplus s) && is_empty ps

-- Of a call that need not wait, a grant takes the units and nothing else, a refusal sets EAGAIN
-- and answers -1, and a demand of 0 stops the kernel.
pub ksemaphore_down-at_once :
    (s demand : ℕ) (timeout : ℤ) (ps : List ℕ) (k : Kernel)
    → Ring k.wait_links s ps
    → k.surplus s < 2 ^ 32
    → (grants s demand ps k ≡ true) ⊎ (is_negative timeout ≡ true)
    → ksemaphore_down s demand timeout k ≡ (
        if demand == 0
        then panic
        else if grants s demand ps k
        then ok (
          returns (to_int demand),
          record k { surplus = set_at k.surplus s (k.surplus s - demand) },
        )
        else ok (
          returns (negsuc 0),
          record k { last_errno = set_at k.last_errno k.cur_process eagain },
        ))
unfolding ksemaphore_down
ksemaphore_down-at_once s demand timeout ps k r b h =
    rw (is_empty-Ring k.wait_links s ps r) (elim (Bool-cases (demand == 0)) [
      | inl z ↦ rw (z, le→ltb 0 demand (omega (arith, ==→eq demand 0 z))) refl
      | inr z ↦
          rw (z, lt→ltb 0 demand (omega (arith, ==→ne demand 0 z)))
            (elim (Bool-cases (grants s demand ps k)) [
              | inl g ↦ rw (g, paid g) refl
              | inr g ↦ elim h [ inl g' ↦ cc (sym g ∙ g') | inr n ↦ rw (g, n) refl ]
            ])
    ])
  where
    paid : grants s demand ps k ≡ true → sub32 (k.surplus s) demand ≡ k.surplus s - demand
    paid g = ground arith

abbrev blocked : Kernel → Run (Call × Kernel)
blocked k = ok (blocks, k)

-- The caller, at the back of the waiters and asleep, and another process on the processor.
pub record Queued (s demand : ℕ) (ps : List ℕ) (k k' : Kernel) : Type 0 where
  pub waiters : Ring k'.wait_links s (ps ++ (k.cur_process ∷ []))
  pub demanded : k'.demand k.cur_process ≡ demand
  pub waits : k'.state k.cur_process ≡ process_waiting
