-- ===== src/Sched/Requeue.antt =====
-- `schedule` before the choice: the process that runs moves to the back of its level, on the
-- active queue while it has time left, and else on the other one.
use x_os_tmp.Base.{
  ℕ, ◌+◌, ◌*◌, ◌-◌, ◌%◌, ◌^◌, ◌<◌, ◌≡◌, ◌≢◌, refl, sym, ◌∙◌, subst, ◌==◌, List, [], ◌∷◌, ◌++◌,
  arith, if◌then◌else◌, Bool-cases, inl, inr, eq→==, ne→==, ==→eq, set_at, set_at_self, set_at_ne,
  In, In-append, In-middle, ◌⊎◌,
}
use x_os_tmp.CircularList.{head, node, Links, circular_list_insert, circular_list_remove}
use x_os_tmp.CircularList.Rings.{
  Rings, with_row, Rings-insert_back, Rings-remove, removed-out, removed-old,
}
use x_os_tmp.Kernel.{Kernel, process_running, add32, sub32}
use x_os_tmp.Sched.{level, requeue, append_sched, flush_rest_time}
use x_os_tmp.Sched.Count.{total, total-grow, total-shrink}
use x_os_tmp.Sched.Queues.{SchedInv}

-- The table after the node `p` left row `i` and went to the back of row `j`.
abbrev pub moved : (ℕ → List ℕ) → ℕ → List ℕ → ℕ → List ℕ → ℕ → ℕ → List ℕ
moved t i xs p ys j = let t₁ = with_row t i (xs ++ ys) in with_row t₁ j (t₁ j ++ (p ∷ []))

module _ (l : Links) (t : ℕ → List ℕ) (i : ℕ) (xs : List ℕ) (p : ℕ) (ys : List ℕ) (h : i < 32)
    (e : t i ≡ xs ++ (p ∷ ys)) (rs : Rings l 32 t) where
  pub moved-Rings :
      (j : ℕ)
      → j < 32
      → let l₁ = circular_list_remove (node p) l in
        Rings (circular_list_insert (l₁.pre (head j)) (node p) l₁) 32 (moved t i xs p ys j)
  moved-Rings j b =
      Rings-insert_back _ 32 (with_row t i (xs ++ ys)) j b (Rings-remove l 32 t i h rs xs p ys e) p
        (removed-out l 32 t i xs p ys h e rs)

  -- The rows after the move hold the moved node in its new row, and nothing else that is new.
  pub moved-In :
      (j c r : ℕ) → In r (moved t i xs p ys j c) → ((r ≡ p) × (c ≡ j)) ⊎ ((r ≢ p) × In r (t c))
  moved-In j c r m = elim (Bool-cases (c == j)) [
    | inl b ↦ elim (In-append r (with_row t i (xs ++ ys) j) (p ∷ []) (rw b at m)) [
      | inl a ↦ inr (apart j a, rw (==→eq c j b) (removed-old l 32 t i xs p ys h e rs j r a))
      | inr w ↦ elim w [ inl z ↦ inl (sym z, ==→eq c j b) | inr z ↦ absurd z ]
    ]
    | inr b ↦
        let a : In r (with_row t i (xs ++ ys) c) = rw b at m in
        inr (apart c a, removed-old l 32 t i xs p ys h e rs c r a)
  ]
    where
      apart : (d : ℕ) → In r (with_row t i (xs ++ ys) d) → r ≢ p
      apart d a z =
          removed-out l 32 t i xs p ys h e rs d (subst (λ y. In y (with_row t i (xs ++ ys) d)) z a)

  -- One process less for the queue that it leaves, and one more for the one that it goes to.
  pub moved-total :
      (q q' n r : ℕ)
      → n < 16
      → i ≡ level q n
      → total 16 (16 * r) (moved t i xs p ys (level q' n)) + (if r == q then 1 else 0)
        ≡ total 16 (16 * r) t + (if r == q' then 1 else 0)
  moved-total q q' n r b at =
      let g = total-grow q' r n p (with_row t i (xs ++ ys)) b in
      let s = total-shrink q r n i xs p ys t b at e in ground (arith, g, s)

-- The process that runs, while it has time left: to the back of its level.
abbrev pub rotated : Kernel → Kernel
rotated k =
    let p = k.cur_process in
    append_sched k.active_queue p (record k {
      rest_time = set_at k.rest_time p ((k.rest_time p + 2 ^ 16 - 1) % 2 ^ 16);
      sched_links = circular_list_remove (node p) k.sched_links;
    })

-- The same, when its time is up: to the back of its level on the other queue, with new time.
abbrev pub expired : Kernel → Kernel
expired k =
    let p = k.cur_process in
    let rest = set_at k.rest_time p ((k.rest_time p + 2 ^ 16 - 1) % 2 ^ 16) in
    let k₁ = append_sched k.expire_queue p (record k {
      rest_time = set_at rest p (flush_rest_time p k);
      sched_links = circular_list_remove (node p) k.sched_links;
    }) in
    let c = set_at k.queue_count k.active_queue (sub32 (k.queue_count k.active_queue) 1) in
    record k₁ {
      queue_count = set_at c k.expire_queue (add32 (c k.expire_queue) 1);
      sched_queue = set_at k.sched_queue p k.expire_queue;
    }

-- One tick less.
abbrev pub ticked : Kernel → ℕ
ticked k = (k.rest_time k.cur_process + 2 ^ 16 - 1) % 2 ^ 16

pub requeue-running :
    (k : Kernel)
    → k.state k.cur_process ≡ process_running
    → requeue k ≡ (if ticked k == 0 then expired k else rotated k)
unfolding requeue
requeue-running k r = rw (eq→== _ _ r, set_at_self k.rest_time k.cur_process (ticked k)) refl

counts-move :
    (c : ℕ → ℕ) (a x r T T' : ℕ)
    → a ≢ x
    → c r ≡ T % 2 ^ 32
    → T' + (if r == a then 1 else 0) ≡ T + (if r == x then 1 else 0)
    → set_at (set_at c a (sub32 (c a) 1)) x (add32 (set_at c a (sub32 (c a) 1) x) 1) r ≡ T' % 2 ^ 32
counts-move c a x r T T' ne h s = elim (Bool-cases (r == x)) [
  | inl e ↦
      rw (e, set_at_ne c a (sub32 (c a) 1) x (λ w. ne (sym w)), ← ==→eq r x e)
        (omega (arith, h, rw (e, ne→== r a (λ w. ne (sym w ∙ ==→eq r x e))) at s))
  | inr e ↦ rw e (elim (Bool-cases (r == a)) [
    | inl w ↦ rw (w, ← ==→eq r a w) (omega (arith, h, rw (e, w) at s))
    | inr w ↦ rw w (omega (arith, h, rw (e, w) at s))
  ])
]

module _ (k : Kernel) (t : ℕ → List ℕ) (i : ℕ) (xs ys : List ℕ) (h : i < 32)
    (n : k.nice k.cur_process < 16) (e : t i ≡ xs ++ (k.cur_process ∷ ys))
    (on : k.sched_queue k.cur_process ≡ k.active_queue) (inv : SchedInv k t) where
  at : i ≡ level k.active_queue (k.nice k.cur_process)
  at =
      subst (λ q. i ≡ level q (k.nice k.cur_process)) on
        (inv.placed i k.cur_process (rw e (In-middle xs k.cur_process ys)))

  pub rotated-SchedInv :
      SchedInv
        (rotated k)
        (moved t i xs k.cur_process ys (level k.active_queue (k.nice k.cur_process)))
  rotated-SchedInv = record {
    rings =
        moved-Rings k.sched_links t i xs k.cur_process ys h e inv.rings _
          (omega (arith, inv.active));
    runs = λ c r m. elim (moved-In k.sched_links t i xs k.cur_process ys h e inv.rings _ c r m) [
      | inl z ↦ rw (z.0) (inv.runs i k.cur_process (rw e (In-middle xs k.cur_process ys)))
      | inr z ↦ inv.runs c r z.1
    ];
    placed = λ c r m. elim (moved-In k.sched_links t i xs k.cur_process ys h e inv.rings _ c r m) [
      | inl z ↦ rw (z.0) (rw on (z.1))
      | inr z ↦ inv.placed c r z.1
    ];
    counted = λ r b.
        let s =
          moved-total k.sched_links t i xs k.cur_process ys h e inv.rings k.active_queue
            k.active_queue (k.nice k.cur_process) r n at in
        omega (arith, s, inv.counted r b);
    active = inv.active;
    expire = inv.expire;
  }

  pub expired-SchedInv :
      k.active_queue ≢ k.expire_queue
      → SchedInv
          (expired k)
          (moved t i xs k.cur_process ys (level k.expire_queue (k.nice k.cur_process)))
  expired-SchedInv ne = record {
    rings =
        moved-Rings k.sched_links t i xs k.cur_process ys h e inv.rings _
          (omega (arith, inv.expire));
    runs = λ c r m. elim (moved-In k.sched_links t i xs k.cur_process ys h e inv.rings _ c r m) [
      | inl z ↦ rw (z.0) (inv.runs i k.cur_process (rw e (In-middle xs k.cur_process ys)))
      | inr z ↦ inv.runs c r z.1
    ];
    placed = λ c r m. elim (moved-In k.sched_links t i xs k.cur_process ys h e inv.rings _ c r m) [
      | inl z ↦ rw (z.0) (rw (set_at_self k.sched_queue k.cur_process k.expire_queue) (z.1))
      | inr z ↦ rw (ne→== r k.cur_process z.0) (inv.placed c r z.1)
    ];
    counted = λ r b.
        let s =
          moved-total k.sched_links t i xs k.cur_process ys h e inv.rings k.active_queue
            k.expire_queue (k.nice k.cur_process) r n at in
        counts-move k.queue_count k.active_queue k.expire_queue r _ _ ne (inv.counted r b) s;
    active = inv.active;
    expire = inv.expire;
  }
