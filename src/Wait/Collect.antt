-- ===== src/Wait/Collect.antt =====
-- The list-level account of `ready_processes`: which processes of a slot of the wheel it takes.
use x_os_tmp.Base.{ℕ, zero, suc, Bool, List, [], ◌∷◌, if◌then◌else◌}
use x_os_tmp.Kernel.{Kernel, long_lt}

-- `proc->sleep_info.wakeup_jiffies > jiffies`
abbrev pub later : Kernel → ℕ → Bool
later k p = long_lt k.jiffies (k.wakeup_jiffies p)

-- The first `room` processes of a slot that are due, and all the others, in their order.
abbrev pub taken : (ℕ → Bool) → ℕ → List ℕ → List ℕ
taken late zero ps = []
taken late (suc room) [] = []
taken late (suc room) (p ∷ ps) = if late p then taken late (suc room) ps else p ∷ taken late room ps

abbrev pub left : (ℕ → Bool) → ℕ → List ℕ → List ℕ
left late zero ps = ps
left late (suc room) [] = []
left late (suc room) (p ∷ ps) = if late p then p ∷ left late (suc room) ps else left late room ps

-- All that are due.
abbrev pub all_due : (ℕ → Bool) → List ℕ → List ℕ
all_due late [] = []
all_due late (p ∷ ps) = if late p then all_due late ps else p ∷ all_due late ps
