-- ===== src/Wait/Admit.antt =====
-- `in_sched_all`: processes that were asleep come to their levels one after the other.
use x_os_tmp.Base.{
  ℕ, ◌<◌, ◌≡◌, ◌≢◌, refl, ltb, sym, subst, ◌∙◌, ◌==◌, List, [], ◌∷◌, ◌++◌, arith, Bool-cases, inl,
  inr, ==→eq, ok, In, In-append, In-append_left, Distinct, Fresh-not-In, set_at_self, set_at_ne,
}
use x_os_tmp.CircularList.Rings.{All-of_In, with_row}
use x_os_tmp.Sched.Joined.{Joined, Joined-none, Joined-one, Joined-append, level_for}
use x_os_tmp.Kernel.{Kernel, process_running, lock_task, add32}
use x_os_tmp.Kernel.Lock.{CanLock}
use x_os_tmp.Sched.{level}
use x_os_tmp.Sched.Queues.{SchedInv, queue_for, queued, queued-SchedInv, in_sched_queue-ok}
use x_os_tmp.Wait.{in_sched_all}

-- The rows grow, and the processes outside `ps` and the clock are as they were.
pub record Beside (ps : List ℕ) (k : Kernel) (ts : ℕ → List ℕ) (k' : Kernel) (ts' : ℕ → List ℕ)
    : Type 0 where
  pub stays : (p j : ℕ) → In p (ts j) → In p (ts' j)
  pub state : (q : ℕ) → (In q ps → ⊥) → k'.state q ≡ k.state q
  pub sched_queue : (q : ℕ) → (In q ps → ⊥) → k'.sched_queue q ≡ k.sched_queue q
  pub rest_time : (q : ℕ) → (In q ps → ⊥) → k'.rest_time q ≡ k.rest_time q
  pub nice : k'.nice ≡ k.nice
  pub wakeup_jiffies : k'.wakeup_jiffies ≡ k.wakeup_jiffies
  pub jiffies : k'.jiffies ≡ k.jiffies
  pub active_queue : k'.active_queue ≡ k.active_queue
  pub expire_queue : k'.expire_queue ≡ k.expire_queue
  pub cur_process : k'.cur_process ≡ k.cur_process
  pub lock_count : (q : ℕ) → k'.lock_count q ≡ k.lock_count q

-- One change after another, of fewer processes each.
pub Beside-trans :
    (ps qs rs : List ℕ) (k k₁ k₂ : Kernel) (ts t₁ t₂ : ℕ → List ℕ)
    → ((p : ℕ) → In p ps → In p rs)
    → ((p : ℕ) → In p qs → In p rs)
    → Beside ps k ts k₁ t₁
    → Beside qs k₁ t₁ k₂ t₂
    → Beside rs k ts k₂ t₂
Beside-trans ps qs rs k k₁ k₂ ts t₁ t₂ f g a b = record {
  stays = λ p j m. b.stays p j (a.stays p j m);
  state = λ q m. b.state q (λ z. m (g q z)) ∙ a.state q (λ z. m (f q z));
  sched_queue = λ q m. b.sched_queue q (λ z. m (g q z)) ∙ a.sched_queue q (λ z. m (f q z));
  rest_time = λ q m. b.rest_time q (λ z. m (g q z)) ∙ a.rest_time q (λ z. m (f q z));
  nice = b.nice ∙ a.nice;
  wakeup_jiffies = b.wakeup_jiffies ∙ a.wakeup_jiffies;
  jiffies = b.jiffies ∙ a.jiffies;
  active_queue = b.active_queue ∙ a.active_queue;
  expire_queue = b.expire_queue ∙ a.expire_queue;
  cur_process = b.cur_process ∙ a.cur_process;
  lock_count = λ q. b.lock_count q ∙ a.lock_count q;
}

pub Beside-level :
    (ps : List ℕ) (k : Kernel) (ts : ℕ → List ℕ) (k' : Kernel) (ts' : ℕ → List ℕ)
    → Beside ps k ts k' ts'
    → (q : ℕ) → (In q ps → ⊥)
    → level_for q k' ≡ level_for q k
Beside-level ps k ts k' ts' b q out =
    rw (b.rest_time q out, b.nice, b.active_queue, b.expire_queue) refl

pub same : (k : Kernel) (ts : ℕ → List ℕ) → Beside [] k ts k ts
same k ts = record {
  stays = λ p j m. m;
  state = λ q m. refl;
  sched_queue = λ q m. refl;
  rest_time = λ q m. refl;
  nice = refl;
  wakeup_jiffies = refl;
  jiffies = refl;
  active_queue = refl;
  expire_queue = refl;
  cur_process = refl;
  lock_count = λ q. refl;
}

queued-lock_count :
    (p : ℕ) (k : Kernel) → CanLock k → (q : ℕ) → (queued p k).lock_count q ≡ k.lock_count q
unfolding lock_task
queued-lock_count p k c q = elim (Bool-cases (q == k.cur_process)) [
  | inl b ↦
      rw
        (
          b,
          ==→eq q k.cur_process b,
          set_at_self k.lock_count k.cur_process (add32 (k.lock_count k.cur_process) 1),
        )
        (omega (arith, c))
  | inr b ↦ rw b refl
]

not_there :
    (p r : ℕ) (t : ℕ → List ℕ) (i : ℕ)
    → r ≢ p
    → ((j : ℕ) → In r (t j) → ⊥)
    → (j : ℕ) → In r (with_row t i (t i ++ (p ∷ [])) j)
    → ⊥
not_there p r t i ne out j m = elim (Bool-cases (j == i)) [
  | inl e ↦ elim (In-append r (t i) (p ∷ []) (rw e at m)) [
    | inl a ↦ out i a
    | inr b ↦ elim b [ inl w ↦ ne (sym w) | inr z ↦ z ]
  ]
  | inr e ↦ out j (rw e at m)
]

queued-Beside :
    (p : ℕ) (k : Kernel) (ts : ℕ → List ℕ)
    → CanLock k
    → let i = level (queue_for p k) (k.nice p) in
      Beside (p ∷ []) k ts (queued p k) (with_row ts i (ts i ++ (p ∷ [])))
unfolding lock_task
queued-Beside p k ts c =
    let i = level (queue_for p k) (k.nice p) in
    record {
      stays = λ r j m. elim (Bool-cases (j == i)) [
        | inl e ↦ rw e (In-append_left r (ts i) (p ∷ []) (subst (λ z. In r (ts z)) (==→eq j i e) m))
        | inr e ↦ rw e m
      ];
      state = λ q m. set_at_ne k.state p process_running q (λ e. m (inl (sym e)));
      sched_queue = λ q m. set_at_ne k.sched_queue p (queue_for p k) q (λ e. m (inl (sym e)));
      rest_time = λ q m. elim (Bool-cases (ltb 0 (k.rest_time p))) [
        | inl e ↦ rw e refl
        | inr e ↦ rw e (set_at_ne k.rest_time p _ q (λ w. m (inl (sym w))))
      ];
      nice = refl;
      wakeup_jiffies = refl;
      jiffies = refl;
      active_queue = refl;
      expire_queue = refl;
      cur_process = refl;
      lock_count = queued-lock_count p k c;
    }

pub in_sched_all-SchedInv :
    (ps : List ℕ) (k : Kernel) (ts : ℕ → List ℕ)
    → Distinct ps
    → ((p : ℕ) → In p ps → (j : ℕ) → In p (ts j) → ⊥)
    → ((p : ℕ) → k.nice p < 16)
    → CanLock k
    → SchedInv k ts
    → (k' : Kernel) × (ts' : ℕ → List ℕ) × (in_sched_all ps k ≡ ok k')
      × SchedInv k' ts'
      × Beside ps k ts k' ts'
      × (k'.sleep_links ≡ k.sleep_links)
      × ((p : ℕ) → In p ps → k'.state p ≡ process_running)
      × Joined ps k ts ts'
unfolding lock_task in_sched_all
in_sched_all-SchedInv [] k ts d out n c inv =
    (k, ts, refl, inv, same k ts, refl, λ p m. absurd m, Joined-none k ts)
in_sched_all-SchedInv (p ∷ ps) k ts d out n c inv =
    let i = level (queue_for p k) (k.nice p) in
    let r =
      in_sched_all-SchedInv ps (queued p k) (with_row ts i (ts i ++ (p ∷ []))) d.1
        (λ q m.
          not_there p q ts i (λ e. Fresh-not-In p ps d.0 (subst (λ z. In z ps) e m))
            (out q (inr m)))
        n (omega (arith, c, queued-lock_count p k c k.cur_process))
        (queued-SchedInv p k ts (n p) (out p (inl refl)) inv) in
    let b = r.4 in
    (
      r.0,
      r.1,
      rw (in_sched_queue-ok p k c) r.2,
      r.3,
      Beside-trans (p ∷ []) ps (p ∷ ps) k (queued p k) r.0 ts _ r.1
          (λ q m. elim m [ inl e ↦ inl e | inr z ↦ absurd z ]) (λ q m. inr m)
          (queued-Beside p k ts c) b,
      r.5,
      λ q m. elim m [
        | inl e ↦
            rw (← e) (b.state p (Fresh-not-In p ps d.0) ∙ set_at_self k.state p process_running)
        | inr z ↦ r.6 q z
      ],
      Joined-append (p ∷ []) ps k (queued p k) ts _ r.1
          (All-of_In (λ q. level_for q (queued p k) ≡ level_for q k) ps
            (λ q m. Beside-level (p ∷ []) k ts (queued p k) _ (queued-Beside p k ts c) q (λ z.
              elim z [
                | inl e ↦ Fresh-not-In p ps d.0 (subst (λ y. In y ps) (sym e) m)
                | inr y ↦ y
              ])))
          (Joined-one p k ts) r.7,
    )
