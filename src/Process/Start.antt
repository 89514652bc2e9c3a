-- ===== src/Process/Start.antt =====
-- The last part of `sys_fork`: the new process comes to its level, and `schedule` goes on.
use x_os_tmp.Base.{ℕ, ◌/◌, ◌==◌, List, [], ◌∷◌, ◌++◌, if◌then◌else◌, set_at}
use x_os_tmp.CircularList.Rings.{with_row}
use x_os_tmp.Kernel.{Kernel, lock_task}
use x_os_tmp.Kernel.Lock.{released}
use x_os_tmp.Sched.{level}
use x_os_tmp.Sched.Queues.{queue_for, queued}

-- Half of the time of the process that forks, but 1 at least.
abbrev pub kept_time : Kernel → ℕ
kept_time k = let half = k.rest_time k.cur_process / 2 in if half == 0 then 1 else half

abbrev pub shared_time : Kernel → Kernel
unfolding lock_task
shared_time k =
    let k₁ = lock_task k in
    record k₁ { rest_time = set_at k₁.rest_time k.cur_process (kept_time k) }

-- The kernel that `schedule` finds.
abbrev pub entered : ℕ → Kernel → Kernel
entered new k = released (queued new (shared_time k))

-- The rows, with the new process behind the others of its level, and what then stands behind the
-- process that forks.
abbrev pub joined_level : ℕ → Kernel → ℕ
joined_level new k = level (queue_for new k) (k.nice new)

abbrev pub joined : ℕ → Kernel → (ℕ → List ℕ) → ℕ → List ℕ
joined new k t = let j = joined_level new k in with_row t j (t j ++ (new ∷ []))

abbrev pub behind : ℕ → Kernel → ℕ → List ℕ → List ℕ
behind new k i ys = if i == joined_level new k then ys ++ (new ∷ []) else ys
