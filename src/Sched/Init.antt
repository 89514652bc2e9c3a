-- ===== src/Sched/Init.antt =====
-- `init_schedule_module` makes the run queues well formed, whatever the memory held.
use x_os_tmp.Base.{
  ℕ, zero, suc, ◌+◌, ◌*◌, ◌%◌, ◌^◌, ◌-◌, ◌<◌, ◌≤◌, ◌≡◌, ◌≢◌, ◌⊎◌, refl, sym, ap, ◌==◌, List, [],
  ◌∷◌, arith, if◌then◌else◌, Bool-cases, inl, inr, ==→eq, ==→ne, ok, set_at, ltb, ltb→lt, ltb→le,
}
use x_os_tmp.CircularList.{head, Links, circular_list_init, update}
use x_os_tmp.CircularList.Seg.{Ring}
use x_os_tmp.CircularList.Rings.{with_row}
use x_os_tmp.Kernel.{Kernel}
use x_os_tmp.Kernel.Lock.{CanLock}
use x_os_tmp.Sched.{level, init_levels, init_schedule_module}
use x_os_tmp.Sched.Count.{total}
use x_os_tmp.Sched.Queues.{SchedInv, in_sched_queue-SchedInv}

-- An empty list stays one, and the list that is initialised becomes one.
init-Ring :
    (l : Links) (i j : ℕ) → (j ≢ i → Ring l j []) → Ring (circular_list_init (head i) l) j []
unfolding circular_list_init update
init-Ring l i j h = elim (Bool-cases (j == i)) [
  | inl e ↦ record {
    seg = (rw e (ap head (sym (==→eq j i e))), rw e (ap head (sym (==→eq j i e))));
    distinct = tt;
  }
  | inr e ↦
      let r = h (==→ne j i e) in record { seg = (rw e (r.seg.0), rw e (r.seg.1)); distinct = tt }
]

-- The lists of the queues up to the level n.
init_levels-Ring :
    (n : ℕ) (l : Links)
    → n ≤ 16
    → (i j : ℕ) → i < n
    → (j ≡ i) ⊎ (j ≡ 16 + i)
    → Ring (init_levels n l) j []
unfolding init_levels
init_levels-Ring zero l h i j m e = absurd (omega (arith, m))
init_levels-Ring (suc n) l h i j m e =
    init-Ring (circular_list_init (head (level 0 n)) (init_levels n l)) (level 1 n) j (λ a.
      init-Ring (init_levels n l) (level 0 n) j
        (λ b. init_levels-Ring n l (omega (arith, h)) i j (below i j m e a b) e))
  where
    below : (i j : ℕ) → i < suc n → (j ≡ i) ⊎ (j ≡ 16 + i) → j ≢ 16 * 1 + n → j ≢ 16 * 0 + n → i < n
    below i j m (inl e) a b = omega (arith, m, e, a, b)
    below i j m (inr e) a b = omega (arith, m, e, a, b)

abbrev pub no_process : ℕ → List ℕ
no_process i = []

total-no_process : (n base : ℕ) → total n base no_process ≡ 0
unfolding total
total-no_process zero base = refl
total-no_process (suc n) base = omega (arith, total-no_process n (base + 1))

-- Whatever the links held, when the current process can take one more lock and has a priority
-- below 16, init_schedule_module does not panic and leaves well-formed run queues that hold this
-- process alone, on the level of its priority of the active queue if it has time left and else of
-- the other one.
pub init_schedule_module-SchedInv :
    (k : Kernel)
    → CanLock k
    → k.nice k.cur_process < 16
    → (k' : Kernel) × (init_schedule_module k ≡ ok k')
      × SchedInv k' (
          with_row no_process
            (level (if ltb 0 (k.rest_time k.cur_process) then 0 else 1) (k.nice k.cur_process))
            (k.cur_process ∷ []))
unfolding init_schedule_module
init_schedule_module-SchedInv k c h =
    in_sched_queue-SchedInv k.cur_process
      (record k {
        sched_links = init_levels 16 k.sched_links;
        active_queue = 0;
        expire_queue = 1;
        queue_count = set_at (set_at k.queue_count 0 0) 1 0;
      })
      no_process c h (λ j m. m) start
  where
    start :
        SchedInv
          (record k {
            sched_links = init_levels 16 k.sched_links;
            active_queue = 0;
            expire_queue = 1;
            queue_count = set_at (set_at k.queue_count 0 0) 1 0;
          })
          no_process
    start = record {
      rings = record {
        ring = λ i b. elim (Bool-cases (ltb i 16)) [
          | inl e ↦ init_levels-Ring 16 k.sched_links (omega arith) i i (ltb→lt i 16 e) (inl refl)
          | inr e ↦
              init_levels-Ring 16 k.sched_links (omega arith) (i - 16) i
                (omega (arith, b, ltb→le i 16 e)) (inr (omega (arith, ltb→le i 16 e)))
        ];
        apart = λ i j p a b. absurd a;
      };
      runs = λ i p m. absurd m;
      placed = λ i p m. absurd m;
      counted = λ q b. count_of q b;
      active = omega arith;
      expire = omega arith;
    }
      where
        count_of :
            (q : ℕ)
            → q < 2
            → set_at (set_at k.queue_count 0 0) 1 0 q ≡ total 16 (16 * q) no_process % 2 ^ 32
        count_of q b = rw (total-no_process 16 (16 * q)) (ground arith)
