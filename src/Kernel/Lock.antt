-- ===== src/Kernel/Lock.antt =====
-- src/task_locker.c: a section between `lock_task` and `unlock_task`.
use x_os_tmp.Base.{
  ℕ, ◌+◌, ◌<◌, ◌≡◌, refl, ◌==◌, if◌then◌else◌, ok, set_at, arith, true, lt→ltb, set_at_self,
  Bool-cases, inl, inr, ==→eq,
}
use x_os_tmp.Kernel.{Kernel, word, lock_task, unlock_task, add32, sub32}

-- The counter of the current process has room for one more lock.
abbrev pub CanLock : Kernel → Type 0
CanLock k = k.lock_count k.cur_process + 1 < word

-- What `unlock_task` does to the counter that it finds.
abbrev pub released : Kernel → Kernel
released k = record k {
  lock_count = set_at k.lock_count k.cur_process (sub32 (k.lock_count k.cur_process) 1);
  interrupts = if sub32 (k.lock_count k.cur_process) 1 == 0 then true else k.interrupts;
}

pub unlock_task-ok : (k : Kernel) → 0 < k.lock_count k.cur_process → unlock_task k ≡ ok (released k)
unfolding unlock_task
unlock_task-ok k h = rw (lt→ltb 0 (k.lock_count k.cur_process) h)

-- After a section every counter is as before.
pub released-lock_task :
    (k : Kernel) → CanLock k → (p : ℕ) → (released (lock_task k)).lock_count p ≡ k.lock_count p
unfolding lock_task
released-lock_task k h p = elim (Bool-cases (p == k.cur_process)) [
  | inl e ↦ rw e (rw (==→eq p k.cur_process e) (ground arith))
  | inr e ↦ rw e refl
]

pub lock_task-pos :
    (k : Kernel) → CanLock k → 0 < (lock_task k).lock_count (lock_task k).cur_process
unfolding lock_task
lock_task-pos k h =
    rw (set_at_self k.lock_count k.cur_process (add32 (k.lock_count k.cur_process) 1)) (omega arith)

-- With room for one more lock, unlock_task after lock_task does not panic, every counter is as
-- before, and the interrupts are on if the section was outermost and else as before.
pub lock-unlock :
    (k : Kernel)
    → CanLock k
    → (k' : Kernel) × (unlock_task (lock_task k) ≡ ok k')
      × ((p : ℕ) → k'.lock_count p ≡ k.lock_count p)
      × (k'.cur_process ≡ k.cur_process)
      × (k'.interrupts ≡ (if k.lock_count k.cur_process == 0 then true else k.interrupts))
unfolding lock_task
lock-unlock k h = (
  released (lock_task k),
  unlock_task-ok (lock_task k) (lock_task-pos k h),
  released-lock_task k h,
  refl,
  ground arith,
)
