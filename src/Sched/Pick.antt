-- ===== src/Sched/Pick.antt =====
-- The loop that chooses the next process: it runs from the highest level down without a `break`,
-- and so comes to the first process of the lowest level that has one.
use x_os_tmp.Base.{ℕ, zero, suc, ◌+◌, ◌<◌, ◌≡◌, refl, List, [], ◌∷◌, arith, if◌then◌else◌, ◌∙◌, ap}
use x_os_tmp.CircularList.{head, circular_list_is_empty}
use x_os_tmp.CircularList.Seg.{Ring}
use x_os_tmp.CircularList.Scan.{is_empty-Ring}
use x_os_tmp.Kernel.{Kernel, process1}
use x_os_tmp.Sched.{pick_from, level, parentof}

-- The search from level `i` up through `n` levels, which stops at the first process.
abbrev pub first_ready : ℕ → ℕ → (ℕ → List ℕ) → ℕ → ℕ
first_ready zero i row new = new
first_ready (suc n) i row new = elim (row i) [ [] ↦ first_ready n (i + 1) row new | p ∷ ps ↦ p ]

candidate : ℕ → List ℕ → ℕ
candidate new [] = new
candidate new (p ∷ ps) = p

candidate-Ring :
    (k : Kernel) (i new : ℕ) (ps : List ℕ)
    → Ring k.sched_links i ps
    → (if circular_list_is_empty (head i) k.sched_links
        then new
        else parentof (k.sched_links.next (head i)))
      ≡ candidate new ps
unfolding candidate
candidate-Ring k i new [] r = rw (is_empty-Ring k.sched_links i [] r) refl
candidate-Ring k i new (p ∷ ps) r = rw (is_empty-Ring k.sched_links i (p ∷ ps) r) (rw (r.seg.0))

candidate-step :
    (n i : ℕ) (row : ℕ → List ℕ) (new : ℕ) (ps : List ℕ)
    → candidate (first_ready n (suc i) row new) ps
      ≡ elim ps [ [] ↦ first_ready n (i + 1) row new | q ∷ qs ↦ q ]
unfolding candidate
candidate-step n i row new [] = ap (λ m. first_ready n m row new) (omega arith)
candidate-step n i row new (p ∷ ps) = refl

pick_from-first_ready :
    (i n : ℕ) (k : Kernel) (row : ℕ → List ℕ) (new : ℕ)
    → ((j : ℕ) → j < i → Ring k.sched_links (level k.active_queue j) (row j))
    → pick_from i (first_ready n i row new) k ≡ first_ready (i + n) 0 row new
unfolding pick_from
pick_from-first_ready zero n k row new r = ap (λ m. first_ready m 0 row new) (omega arith)
pick_from-first_ready (suc i) n k row new r =
    rw
      (candidate-Ring k (level k.active_queue i) (first_ready n (suc i) row new) (row i)
        (r i (omega arith)))
      (rw (candidate-step n i row new (row i)) (
        pick_from-first_ready i (suc n) k row new (λ j h. r j (omega arith))
        ∙ ap (λ m. first_ready m 0 row new) (omega arith)))

-- With the lists of the active queue well formed, the loop that runs over the levels from the
-- highest down without a break chooses the same process as a search from level 0 up that stops at
-- the first one.
pub pick-first_ready :
    (k : Kernel) (row : ℕ → List ℕ)
    → ((j : ℕ) → j < 16 → Ring k.sched_links (level k.active_queue j) (row j))
    → pick_from 16 process1 k ≡ first_ready 16 0 row process1
pick-first_ready k row r = pick_from-first_ready 16 0 k row process1 r
