-- ===== src/Wait/Tick.antt =====
-- The loop of `do_timer` (src/sched.c): every process that is due comes to its level.
use x_os_tmp.Base.{
  ℕ, ◌++◌, zero, suc, ◌+◌, ◌<◌, ◌≤◌, ◌≡◌, ◌≢◌, refl, sym, ap, subst, ◌∙◌, ◌==◌, true, false, List,
  [], length, arith, Bool-cases, inl, inr, eq→==, ne→==, ==→ne, ok, In, Distinct, ltb, ltb→lt,
  ltb→le,
}
use x_os_tmp.CircularList.{Links}
use x_os_tmp.CircularList.Rings.{All-of_In, with_row, with_row_self}
use x_os_tmp.Kernel.{Kernel, process_running, process_waiting, long_lt}
use x_os_tmp.Sched.Joined.{Joined, Joined-append, on_level-cong, level_for}
use x_os_tmp.Wait.{wheel_hash, ready_processes, in_sched_all, wake_ready}
use x_os_tmp.Wait.Collect.{later, taken, left, all_due}
use x_os_tmp.Wait.Ready.{ready_processes-sorts}
use x_os_tmp.Wait.Wake.{Queues}
use x_os_tmp.Wait.Sorted.{
  taken-In, left-In, split-In, taken-Distinct, taken-not-left, left-late, length-sorted, all_due-In,
  all_due-taken, all_due-short,
}
use x_os_tmp.Wait.Admit.{Beside, Beside-trans, Beside-level, same, in_sched_all-SchedInv}

-- Behind the loop at the time `now`, with the times `wakeup` of the sleepers.
pub record Woken (now : ℕ) (wakeup : ℕ → ℕ) (k : Kernel) (ts tl : ℕ → List ℕ) (k' : Kernel)
    : Type 0 where
  pub levels : ℕ → List ℕ
  pub sleepers : ℕ → List ℕ
  pub queues : Queues k' levels sleepers
  pub elsewhere : (j : ℕ) → j ≢ wheel_hash now → sleepers j ≡ tl j
  pub kept :
      (p : ℕ)
      → In p (tl (wheel_hash now))
      → long_lt now (wakeup p) ≡ true
      → In p (sleepers (wheel_hash now))
  pub late :
      (p : ℕ)
      → In p (sleepers (wheel_hash now))
      → In p (tl (wheel_hash now)) × (long_lt now (wakeup p) ≡ true)
  pub woken :
      (p : ℕ)
      → In p (tl (wheel_hash now))
      → long_lt now (wakeup p) ≡ false
      → k'.state p ≡ process_running
  pub beside : Beside (tl (wheel_hash now)) k ts k' levels
  pub joined : Joined (all_due (λ p. long_lt now (wakeup p)) (tl (wheel_hash now))) k ts levels

module _ (fuel : ℕ) (k : Kernel) (ts tl : ℕ → List ℕ) (q : Queues k ts tl)
    (enough : length (tl (wheel_hash k.jiffies)) < fuel) where
  abbrev h : ℕ
  h = wheel_hash k.jiffies

  abbrev due : List ℕ
  due = taken (later k) 32 (tl h)

  abbrev rest : List ℕ
  rest = left (later k) 32 (tl h)

  slot-Distinct : Distinct (tl h)
  slot-Distinct = (q.sleep.ring h (omega arith)).distinct

  -- One round.
  record Round (k₂ : Kernel) : Type 0 where
    rows : ℕ → List ℕ
    links : Links
    ready : ready_processes fuel 32 k ≡ ok (due, record k { sleep_links = links })
    all : in_sched_all due (record k { sleep_links = links }) ≡ ok k₂
    queues : Queues k₂ rows (with_row tl h rest)
    beside : Beside due k ts k₂ rows
    runs : (p : ℕ) → In p due → k₂.state p ≡ process_running
    joined : Joined due k ts rows

  waits : (p : ℕ) → In p due → k.state p ≡ process_waiting
  waits p m = q.asleep h p (taken-In (later k) 32 (tl h) p m).0

  round : (k₂ : Kernel) × Round k₂
  round =
      let r =
        ready_processes-sorts k tl fuel 32 enough
          (All-of_In (λ p. k.state p ≡ process_waiting) (tl h) (q.asleep h)) q.sleep in
      let k₁ = record k { sleep_links = r.0 } in
      let s =
        in_sched_all-SchedInv due k₁ ts (taken-Distinct (later k) 32 (tl h) slot-Distinct)
          (λ p m j i. cc (sym (waits p m) ∙ q.sched.runs j p i)) q.niced q.can_lock
          (record {
            rings = q.sched.rings;
            runs = q.sched.runs;
            placed = q.sched.placed;
            counted = q.sched.counted;
            active = q.sched.active;
            expire = q.sched.expire;
          }) in
      let b = s.4 in
      (
        s.0,
        record {
          rows = s.1;
          links = r.0;
          ready = r.1;
          all = s.2;
          queues = record {
            sched = s.3;
            sleep = rw s.5 r.2;
            asleep = λ j p m. elim (Bool-cases (j == h)) [
              | inl e ↦
                  let m' : In p rest = rw e at m in
                  b.state p (λ d. taken-not-left (later k) 32 (tl h) p slot-Distinct d m')
                  ∙ q.asleep h p (left-In (later k) 32 (tl h) p m')
              | inr e ↦
                  let m' : In p (tl j) = rw e at m in
                  b.state p
                    (λ d. ==→ne j h e (q.sleep.apart j h p m' (taken-In (later k) 32 (tl h) p d).0))
                  ∙ q.asleep j p m'
            ];
            niced = rw b.nice q.niced;
            can_lock = rw (b.cur_process, b.lock_count k.cur_process) q.can_lock;
          };
          beside = record {
            stays = b.stays;
            state = b.state;
            sched_queue = b.sched_queue;
            rest_time = b.rest_time;
            nice = b.nice;
            wakeup_jiffies = b.wakeup_jiffies;
            jiffies = b.jiffies;
            active_queue = b.active_queue;
            expire_queue = b.expire_queue;
            cur_process = b.cur_process;
            lock_count = b.lock_count;
          };
          runs = s.6;
          joined = λ i.
              s.7 i
              ∙ ap (λ l. ts i ++ l)
                  (on_level-cong k k₁ i due
                    (All-of_In (λ p. level_for p k₁ ≡ level_for p k) due (λ p m. refl)));
        },
      )

-- The state behind the round, with nothing more to do or before the rounds that follow.
module _ (fuel : ℕ) (k : Kernel) (ts tl : ℕ → List ℕ) (q : Queues k ts tl)
    (enough : length (tl (wheel_hash k.jiffies)) < fuel) (k₂ : Kernel)
    (r : Round fuel k ts tl q enough k₂) where
  last-Woken : length (due fuel k ts tl q enough) < 32 → Woken k.jiffies k.wakeup_jiffies k ts tl k₂
  last-Woken small = record {
    levels = r.rows;
    sleepers = with_row tl (wheel_hash k.jiffies) (rest fuel k ts tl q enough);
    queues = r.queues;
    elsewhere = λ j ne. rw (ne→== j (wheel_hash k.jiffies) ne) refl;
    kept = λ p m e.
        rw (eq→== (wheel_hash k.jiffies) (wheel_hash k.jiffies) refl)
          (elim (split-In (later k) 32 (tl (wheel_hash k.jiffies)) p m) [
            | inl a ↦ cc (e, (taken-In (later k) 32 (tl (wheel_hash k.jiffies)) p a).1)
            | inr b ↦ b
          ]);
    late = λ p m.
        let m' =
          subst (In p) (with_row_self tl (wheel_hash k.jiffies) (rest fuel k ts tl q enough)) m in
        (
          left-In (later k) 32 (tl (wheel_hash k.jiffies)) p m',
          left-late (later k) 32 (tl (wheel_hash k.jiffies)) p small m',
        );
    woken = λ p m e. elim (split-In (later k) 32 (tl (wheel_hash k.jiffies)) p m) [
      | inl a ↦ r.runs p a
      | inr b ↦ cc (e, left-late (later k) 32 (tl (wheel_hash k.jiffies)) p small b)
    ];
    beside =
        Beside-trans (due fuel k ts tl q enough) [] (tl (wheel_hash k.jiffies)) k k₂ k₂ ts r.rows
          r.rows (λ p d. (taken-In (later k) 32 (tl (wheel_hash k.jiffies)) p d).0)
          (λ p z. absurd z) r.beside (same k₂ r.rows);
    joined =
        subst (λ l. Joined l k ts r.rows)
          (sym (all_due-short (later k) 32 (tl (wheel_hash k.jiffies)) small)) r.joined;
  }

  more-Woken :
      (k' : Kernel)
      → Woken k.jiffies k.wakeup_jiffies k₂ r.rows
          (with_row tl (wheel_hash k.jiffies) (rest fuel k ts tl q enough))
          k'
      → Woken k.jiffies k.wakeup_jiffies k ts tl k'
  more-Woken k' w = record {
    levels = w.levels;
    sleepers = w.sleepers;
    queues = w.queues;
    elsewhere = λ j ne. w.elsewhere j ne ∙ rw (ne→== j (wheel_hash k.jiffies) ne) refl;
    kept = λ p m e. elim (split-In (later k) 32 (tl (wheel_hash k.jiffies)) p m) [
      | inl a ↦ cc (e, (taken-In (later k) 32 (tl (wheel_hash k.jiffies)) p a).1)
      | inr b ↦ w.kept p (into p b) e
    ];
    late = λ p m.
        (left-In (later k) 32 (tl (wheel_hash k.jiffies)) p (out p (w.late p m).0), (w.late p m).1);
    woken = λ p m e. elim (split-In (later k) 32 (tl (wheel_hash k.jiffies)) p m) [
      | inl a ↦
          w.beside.state p (λ z.
            taken-not-left (later k) 32 (tl (wheel_hash k.jiffies)) p
              (slot-Distinct fuel k ts tl q enough) a (out p z))
          ∙ r.runs p a
      | inr b ↦ w.woken p (into p b) e
    ];
    beside =
        Beside-trans (due fuel k ts tl q enough) _ (tl (wheel_hash k.jiffies)) k k₂ k' ts r.rows
          w.levels (λ p d. (taken-In (later k) 32 (tl (wheel_hash k.jiffies)) p d).0)
          (λ p z. left-In (later k) 32 (tl (wheel_hash k.jiffies)) p (out p z)) r.beside w.beside;
    joined =
        subst (λ l. Joined l k ts w.levels)
          (sym (all_due-taken (later k) 32 (tl (wheel_hash k.jiffies))))
          (Joined-append (due fuel k ts tl q enough)
            (all_due (later k) (rest fuel k ts tl q enough)) k k₂ ts r.rows w.levels
            (All-of_In (λ p. level_for p k₂ ≡ level_for p k)
              (all_due (later k) (rest fuel k ts tl q enough))
              (λ p m. Beside-level (due fuel k ts tl q enough) k ts k₂ r.rows r.beside p (λ z.
                taken-not-left (later k) 32 (tl (wheel_hash k.jiffies)) p
                  (slot-Distinct fuel k ts tl q enough) z
                  (all_due-In (later k) (rest fuel k ts tl q enough) p m))))
            r.joined (subst (λ l. Joined (all_due (later k) l) k₂ r.rows w.levels) row w.joined));
  }
    where
      row :
          with_row tl (wheel_hash k.jiffies) (rest fuel k ts tl q enough) (wheel_hash k.jiffies)
          ≡ rest fuel k ts tl q enough
      row = with_row_self tl (wheel_hash k.jiffies) (rest fuel k ts tl q enough)

      out :
          (p : ℕ)
          → In p (
              with_row tl
                (wheel_hash k.jiffies)
                (rest fuel k ts tl q enough)
                (wheel_hash k.jiffies))
          → In p (rest fuel k ts tl q enough)
      out p m = subst (In p) row m

      into :
          (p : ℕ)
          → In p (rest fuel k ts tl q enough)
          → In p (
              with_row tl
                (wheel_hash k.jiffies)
                (rest fuel k ts tl q enough)
                (wheel_hash k.jiffies))
      into p m = subst (In p) (sym row) m

  shorter :
      32 ≤ length (due fuel k ts tl q enough)
      → length (
            with_row tl (wheel_hash k.jiffies) (rest fuel k ts tl q enough) (wheel_hash k₂.jiffies))
          + 32
        ≤ length (tl (wheel_hash k.jiffies))
  shorter full = omega (
    arith,
    full,
    length-sorted (later k) 32 (tl (wheel_hash k.jiffies)),
    ap
          (λ now.
            length
              (with_row tl (wheel_hash k.jiffies) (rest fuel k ts tl q enough) (wheel_hash now)))
          r.beside.jiffies
        ∙ ap length (with_row_self tl (wheel_hash k.jiffies) (rest fuel k ts tl q enough)),
  )

  moved :
      (k' : Kernel) (t₂ : ℕ → List ℕ)
      → Woken k₂.jiffies k₂.wakeup_jiffies k₂ r.rows t₂ k'
      → Woken k.jiffies k.wakeup_jiffies k₂ r.rows t₂ k'
  moved k' t₂ w =
      subst (λ now. Woken now k.wakeup_jiffies k₂ r.rows t₂ k') r.beside.jiffies
        (subst (λ times. Woken k₂.jiffies times k₂ r.rows t₂ k') r.beside.wakeup_jiffies w)

-- When the queues are well formed with every sleeper waiting, and the fuel and the rounds are more
-- than the processes in the current slot of the time wheel, the loop of do_timer ends with well-
-- formed queues: the processes of the slot whose time is still to come sleep on there, all the
-- others of the slot run and stand there no more, and the other slots and processes are as they
-- were.
pub wake_ready-Woken :
    (rounds fuel : ℕ) (k : Kernel) (ts tl : ℕ → List ℕ)
    → length (tl (wheel_hash k.jiffies)) < fuel
    → length (tl (wheel_hash k.jiffies)) < rounds
    → Queues k ts tl
    → (k' : Kernel) × (wake_ready rounds fuel k ≡ ok k')
      × Woken k.jiffies k.wakeup_jiffies k ts tl k'
unfolding wake_ready
wake_ready-Woken zero fuel k ts tl f g q = absurd (omega (arith, g))
wake_ready-Woken (suc rounds) fuel k ts tl f g q =
    let o = round fuel k ts tl q f in
    let k₂ = o.0 in
    let r = o.1 in
    let ps = due fuel k ts tl q f in
    elim (Bool-cases (ltb (length ps) 32)) [
      | inl e ↦ (
        k₂,
        rw (r.ready, r.all, e) refl,
        last-Woken fuel k ts tl q f k₂ r (ltb→lt (length ps) 32 e),
      )
      | inr e ↦
          let t₂ = with_row tl (wheel_hash k.jiffies) (rest fuel k ts tl q f) in
          let less = shorter fuel k ts tl q f k₂ r (ltb→le (length ps) 32 e) in
          let n =
            wake_ready-Woken rounds fuel k₂ r.rows t₂ (omega (arith, less, f))
              (omega (arith, less, g)) r.queues in
          (
            n.0,
            rw (r.ready, r.all, e) n.1,
            more-Woken fuel k ts tl q f k₂ r n.0 (moved fuel k ts tl q f k₂ r n.0 t₂ n.2),
          )
    ]
