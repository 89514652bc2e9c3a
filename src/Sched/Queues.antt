-- ===== src/Sched/Queues.antt =====
-- The run queues stay well formed: `in_sched_queue` appends a process to its level, and
-- `out_sched_queue` takes it from there, each with the count of the queue.
use x_os_tmp.Base.{
  ℕ, ◌+◌, ◌*◌, ◌%◌, ◌^◌, ◌<◌, ◌≡◌, ◌≢◌, refl, sym, ◌∙◌, ap, subst, ◌==◌, List, [], ◌∷◌, ◌++◌, arith,
  if◌then◌else◌, Bool-cases, inl, inr, eq→==, ==→eq, ==→ne, ok, set_at, set_at_self, In, In-append,
  In-insert, In-middle, ltb,
}
use x_os_tmp.CircularList.{node, circular_list_remove}
use x_os_tmp.CircularList.Rings.{Rings, with_row, Rings-insert_back, Rings-remove}
use x_os_tmp.Kernel.{Kernel, process_running, lock_task, add32, sub32}
use x_os_tmp.Kernel.Lock.{CanLock, unlock_task-ok, released}
use x_os_tmp.Sched.{level, in_sched_queue, out_sched_queue, append_sched, flush_rest_time}
use x_os_tmp.Sched.Count.{total, total-grow, total-shrink}

-- The lists of both queues, row by row: each process on a level runs, with this level for its
-- priority and this queue for its queue; and each queue counts its processes.
pub record SchedInv (k : Kernel) (t : ℕ → List ℕ) : Type 0 where
  pub rings : Rings k.sched_links 32 t
  pub runs : (i p : ℕ) → In p (t i) → k.state p ≡ process_running
  pub placed : (i p : ℕ) → In p (t i) → i ≡ level (k.sched_queue p) (k.nice p)
  pub counted : (q : ℕ) → q < 2 → k.queue_count q ≡ total 16 (16 * q) t % 2 ^ 32
  pub active : k.active_queue < 2
  pub expire : k.expire_queue < 2

-- The queue that `in_sched_queue` puts a process on.
abbrev pub queue_for : ℕ → Kernel → ℕ
queue_for p k = if ltb 0 (k.rest_time p) then k.active_queue else k.expire_queue

-- The state that `in_sched_queue` leaves.
abbrev pub queued : ℕ → Kernel → Kernel
unfolding lock_task
queued p k =
    let q = queue_for p k in
    let kk = lock_task (record k {
      sched_queue = set_at k.sched_queue p q;
      rest_time =
          if ltb 0 (k.rest_time p) then k.rest_time else set_at k.rest_time p (flush_rest_time p k);
      state = set_at k.state p process_running;
    }) in
    let k₃ = append_sched q p kk in
    released (record k₃ { queue_count = set_at k₃.queue_count q (add32 (k₃.queue_count q) 1) })

locked-pos :
    (k : Kernel)
    → CanLock k
    → 0 < set_at k.lock_count k.cur_process (add32 (k.lock_count k.cur_process) 1) k.cur_process
locked-pos k h =
    rw (set_at_self k.lock_count k.cur_process (add32 (k.lock_count k.cur_process) 1)) (omega arith)

pub in_sched_queue-ok : (p : ℕ) (k : Kernel) → CanLock k → in_sched_queue p k ≡ ok (queued p k)
unfolding in_sched_queue lock_task
in_sched_queue-ok p k h = elim (Bool-cases (ltb 0 (k.rest_time p))) [
  | inl e ↦ rw (e, set_at_self k.sched_queue p k.active_queue) (unlock_task-ok _ (locked-pos k h))
  | inr e ↦ rw (e, set_at_self k.sched_queue p k.expire_queue) (unlock_task-ok _ (locked-pos k h))
]

-- A process that stands on no level is appended to its own.
pub queued-SchedInv :
    (p : ℕ) (k : Kernel) (t : ℕ → List ℕ)
    → k.nice p < 16
    → ((j : ℕ) → In p (t j) → ⊥)
    → SchedInv k t
    → let i = level (queue_for p k) (k.nice p) in
      SchedInv (queued p k) (with_row t i (t i ++ (p ∷ [])))
unfolding lock_task
queued-SchedInv p k t h out inv = record {
  rings = Rings-insert_back k.sched_links 32 t i small inv.rings p out;
  runs = λ j r m. elim (Bool-cases (r == p)) [
    | inl e ↦ rw e refl
    | inr e ↦ rw e (inv.runs j r (old j r (==→ne r p e) m))
  ];
  placed = λ j r m. elim (Bool-cases (r == p)) [
    | inl e ↦ rw e (
        mine j (subst (λ z. In z (with_row t i row j)) (==→eq r p e) m)
        ∙ ap (λ z. level q (k.nice z)) (sym (==→eq r p e)))
    | inr e ↦ rw e (inv.placed j r (old j r (==→ne r p e) m))
  ];
  counted = λ r b. elim (Bool-cases (r == q)) [
    | inl e ↦
        rw e (rw (total-grow q r (k.nice p) p t h, e, ← ==→eq r q e, inv.counted r b) (omega arith))
    | inr e ↦ rw e (rw (total-grow q r (k.nice p) p t h, e, inv.counted r b) (omega arith))
  ];
  active = inv.active;
  expire = inv.expire;
}
  where
    q : ℕ
    q = queue_for p k

    i : ℕ
    i = level q (k.nice p)

    small : i < 32
    small = elim (Bool-cases (ltb 0 (k.rest_time p))) [
      | inl e ↦ rw e (omega (arith, inv.active))
      | inr e ↦ rw e (omega (arith, inv.expire))
    ]

    row : List ℕ
    row = t i ++ (p ∷ [])

    old : (j r : ℕ) → r ≢ p → In r (with_row t i row j) → In r (t j)
    old j r ne m = elim (Bool-cases (j == i)) [
      | inl e ↦ elim (In-append r (t i) (p ∷ []) (rw e at m)) [
        | inl a ↦ rw (==→eq j i e) a
        | inr b ↦ elim b [ inl w ↦ absurd (ne (sym w)) | inr z ↦ absurd z ]
      ]
      | inr e ↦ rw e at m
    ]

    mine : (j : ℕ) → In p (with_row t i row j) → j ≡ i
    mine j m = elim (Bool-cases (j == i)) [
      | inl e ↦ ==→eq j i e
      | inr e ↦ absurd (out j (rw e at m))
    ]

-- in_sched_queue of a process that stands on no level does not panic, appends it to the level of
-- its priority, on the active queue if it has time left and else on the other one, and keeps both
-- queues well formed with their counts.
pub in_sched_queue-SchedInv :
    (p : ℕ) (k : Kernel) (t : ℕ → List ℕ)
    → CanLock k
    → k.nice p < 16
    → ((j : ℕ) → In p (t j) → ⊥)
    → SchedInv k t
    → (k' : Kernel) × (in_sched_queue p k ≡ ok k')
      × SchedInv k' (let i = level (queue_for p k) (k.nice p) in with_row t i (t i ++ (p ∷ [])))
unfolding lock_task
in_sched_queue-SchedInv p k t c h out inv =
    (queued p k, in_sched_queue-ok p k c, queued-SchedInv p k t h out inv)

-- The state that `out_sched_queue` leaves.
abbrev pub unqueued : ℕ → Kernel → Kernel
unfolding lock_task
unqueued p k =
    let kk = lock_task k in
    let q = kk.sched_queue p in
    released (record kk {
      sched_links = circular_list_remove (node p) kk.sched_links;
      queue_count = set_at kk.queue_count q (sub32 (kk.queue_count q) 1);
    })

pub out_sched_queue-ok :
    (p : ℕ) (k : Kernel)
    → CanLock k
    → k.state p ≡ process_running
    → out_sched_queue p k ≡ ok (unqueued p k)
unfolding out_sched_queue lock_task
out_sched_queue-ok p k h r = rw (eq→== _ _ r) (unlock_task-ok _ (locked-pos k h))

count-dec : (c a b : ℕ) → c ≡ a % 2 ^ 32 → b + 1 ≡ a → sub32 c 1 ≡ b % 2 ^ 32
count-dec c a b h k = omega arith

pub unqueued-SchedInv :
    (p : ℕ) (k : Kernel) (t : ℕ → List ℕ) (i : ℕ) (xs ys : List ℕ)
    → i < 32
    → k.nice p < 16
    → t i ≡ xs ++ (p ∷ ys)
    → SchedInv k t
    → SchedInv (unqueued p k) (with_row t i (xs ++ ys))
unfolding lock_task
unqueued-SchedInv p k t i xs ys h n e inv = record {
  rings = Rings-remove k.sched_links 32 t i h inv.rings xs p ys e;
  runs = λ j r m. inv.runs j r (old j r m);
  placed = λ j r m. inv.placed j r (old j r m);
  counted = λ r b. shrunk r (inv.counted r b);
  active = inv.active;
  expire = inv.expire;
}
  where
    here : In p (t i)
    here = rw e (In-middle xs p ys)

    q : ℕ
    q = k.sched_queue p

    at : i ≡ level q (k.nice p)
    at = inv.placed i p here

    shrunk :
        (r : ℕ)
        → k.queue_count r ≡ total 16 (16 * r) t % 2 ^ 32
        → set_at k.queue_count q (sub32 (k.queue_count q) 1) r
          ≡ total 16 (16 * r) (with_row t i (xs ++ ys)) % 2 ^ 32
    shrunk r b =
        let s = total-shrink q r (k.nice p) i xs p ys t n at e in
        elim (Bool-cases (r == q)) [
          | inl w ↦ rw w (
              count-dec (k.queue_count q) (total 16 (16 * r) t)
                (total 16 (16 * r) (with_row t i (xs ++ ys)))
                (subst (λ z. k.queue_count z ≡ total 16 (16 * r) t % 2 ^ 32) (==→eq r q w) b)
                (rw w at s))
          | inr w ↦ rw w (omega (arith, b, rw w at s))
        ]

    old : (j r : ℕ) → In r (with_row t i (xs ++ ys) j) → In r (t j)
    old j r m = elim (Bool-cases (j == i)) [
      | inl b ↦ rw (==→eq j i b) (rw e (In-insert r xs p ys (rw b at m)))
      | inr b ↦ rw b at m
    ]

-- out_sched_queue of a process that stands on a level does not panic, takes it from there, changes
-- no other list, and keeps both queues well formed with their counts.
pub out_sched_queue-SchedInv :
    (p : ℕ) (k : Kernel) (t : ℕ → List ℕ) (i : ℕ) (xs ys : List ℕ)
    → CanLock k
    → i < 32
    → k.nice p < 16
    → t i ≡ xs ++ (p ∷ ys)
    → SchedInv k t
    → (k' : Kernel) × (out_sched_queue p k ≡ ok k') × SchedInv k' (with_row t i (xs ++ ys))
unfolding lock_task
out_sched_queue-SchedInv p k t i xs ys c h n e inv = (
  unqueued p k,
  out_sched_queue-ok p k c (inv.runs i p (rw e (In-middle xs p ys))),
  unqueued-SchedInv p k t i xs ys h n e inv,
)
