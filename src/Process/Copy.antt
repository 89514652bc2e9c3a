-- ===== src/Process/Copy.antt =====
-- `schedulecpy` in `sys_fork`: the copied nodes are on no list of the run queues.
use x_os_tmp.Base.{
  ℕ, ◌≡◌, ◌≢◌, refl, sym, ◌∙◌, ◌==◌, List, [], ◌∷◌, Bool-cases, inl, inr, ==→eq, eq→==, ne→==, ok,
  In, All, set_at_self, set_at_ne,
}
use x_os_tmp.CircularList.{head, node, Links}
use x_os_tmp.CircularList.Seg.{Seg-frame, Ring}
use x_os_tmp.Kernel.{Kernel, lock_task, unlock_task}
use x_os_tmp.Kernel.Lock.{released}
use x_os_tmp.Sched.Queues.{SchedInv}
use x_os_tmp.Process.{
  Machine, kernel_of, with_kernel, copied, copied_links, copied_kernel, schedulecpy, copy_process,
}

others {ℓ} :
    {A : Type ℓ} (new old : ℕ) (f : ℕ → A) (ps : List ℕ)
    → (In new ps → ⊥)
    → All (λ p. copied new old f p ≡ f p) ps
others new old f [] out = tt
others new old f (p ∷ ps) out =
    (set_at_ne f new (f old) p (λ e. out (inl e)), others new old f ps (λ m. out (inr m)))

copied-Ring :
    (new old : ℕ) (l : Links) (i : ℕ) (ps : List ℕ)
    → (In new ps → ⊥)
    → Ring l i ps
    → Ring (copied_links new old l) i ps
copied-Ring new old l i ps out r = record {
  seg =
      Seg-frame l (copied_links new old l) (head i) ps (head i) refl
        (others new old (λ z. l.next (node z)) ps out) (others new old (λ z. l.pre (node z)) ps out)
        refl r.seg;
  distinct = r.distinct;
}

-- The run queues do not see a copy of a process onto one that is on no level.
copied-SchedInv :
    (new old : ℕ) (k : Kernel) (t : ℕ → List ℕ)
    → ((j : ℕ) → In new (t j) → ⊥)
    → SchedInv k t
    → SchedInv (copied_kernel new old k) t
copied-SchedInv new old k t out inv = record {
  rings = record {
    ring = λ i h. copied-Ring new old k.sched_links i (t i) (out i) (inv.rings.ring i h);
    apart = inv.rings.apart;
  };
  runs = λ i p m. set_at_ne k.state new _ p (stranger i p m) ∙ inv.runs i p m;
  placed = λ i p m.
      rw
        (
          set_at_ne k.sched_queue new (k.sched_queue old) p (stranger i p m),
          set_at_ne k.nice new (k.nice old) p (stranger i p m),
        )
        (inv.placed i p m);
  counted = inv.counted;
  active = inv.active;
  expire = inv.expire;
}
  where
    stranger : (i p : ℕ) → In p (t i) → p ≢ new
    stranger i p m e = out i (rw (← e) m)

-- The kernel behind the copy.
abbrev copy_of : ℕ → Kernel → Kernel
unfolding lock_task
copy_of new k = released (copied_kernel new k.cur_process (lock_task k))

-- When the process that forks holds no lock, and the new process is another one, on no level of
-- the well-formed run queues, the copy in sys_fork ends without a failed assertion: the queues
-- stay well formed with the same rows, the same process has the processor, the new process holds
-- one lock, every other counter of locks is as before, and the new process has the priority, the
-- time, the state and the descriptors of the old one.
pub copy_process-SchedInv :
    (esp new : ℕ) (m : Machine) (t : ℕ → List ℕ)
    → let k = kernel_of m in
      k.lock_count k.cur_process ≡ 0
      → new ≢ k.cur_process
      → ((j : ℕ) → In new (t j) → ⊥)
      → SchedInv k t
      → (m' : Machine) × (copy_process esp new m ≡ ok m')
        × (let k' = kernel_of m' in
            SchedInv k' t
            × (k'.cur_process ≡ k.cur_process)
            × (k'.lock_count new ≡ 1)
            × ((p : ℕ) → p ≢ new → k'.lock_count p ≡ k.lock_count p)
            × (k'.nice new ≡ k.nice k.cur_process)
            × (k'.rest_time new ≡ k.rest_time k.cur_process)
            × (k'.state new ≡ k.state k.cur_process)
            × (m'.fd_info new ≡ m.fd_info k.cur_process))
unfolding copy_process schedulecpy lock_task unlock_task
copy_process-SchedInv esp new m t free other out inv = (
  with_kernel (copy_of new k) (schedulecpy esp new (with_kernel (lock_task k) m)),
  rw (eq→== c c refl, ne→== c new (λ e. other (sym e)), free) refl,
  (
    record {
      rings = i.rings;
      runs = i.runs;
      placed = i.placed;
      counted = i.counted;
      active = i.active;
      expire = i.expire;
    },
    refl,
    rw (eq→== new new refl, ne→== new c other, eq→== c c refl, free) refl,
    λ p ne. elim (Bool-cases (p == c)) [
      | inl e ↦ rw (e, ne→== c new (λ z. other (sym z)), eq→== c c refl, ==→eq p c e, free) refl
      | inr e ↦ rw (e, ne→== p new ne) refl
    ],
    set_at_self k.nice new _,
    set_at_self k.rest_time new _,
    set_at_self k.state new _,
    set_at_self m.fd_info new _,
  ),
)
  where
    k : Kernel
    k = kernel_of m

    c : ℕ
    c = k.cur_process

    i : SchedInv (copied_kernel new c (lock_task k)) t
    i = copied-SchedInv new c (lock_task k) t out (record {
      rings = inv.rings;
      runs = inv.runs;
      placed = inv.placed;
      counted = inv.counted;
      active = inv.active;
      expire = inv.expire;
    })
