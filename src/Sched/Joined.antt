-- ===== src/Sched/Joined.antt =====
-- Processes that come to their levels: each row gets those of its level at its end, in their order.
use x_os_tmp.Base.{
  ℕ, ◌≡◌, refl, sym, ap, ◌∙◌, ◌==◌, List, [], ◌∷◌, ◌++◌, if◌then◌else◌, Bool-cases, inl, inr, ==→eq,
  All,
}
use mathlib.Core.List.{append_assoc, append-nil}
use x_os_tmp.CircularList.Rings.{with_row}
use x_os_tmp.Kernel.{Kernel}
use x_os_tmp.Sched.{level}
use x_os_tmp.Sched.Queues.{queue_for}

-- The level that a process comes to.
abbrev pub level_for : ℕ → Kernel → ℕ
level_for p k = level (queue_for p k) (k.nice p)

-- Those of a list that come to the level i.
abbrev pub on_level : Kernel → ℕ → List ℕ → List ℕ
on_level k i [] = []
on_level k i (p ∷ ps) = if i == level_for p k then p ∷ on_level k i ps else on_level k i ps

abbrev pub Joined : List ℕ → Kernel → (ℕ → List ℕ) → (ℕ → List ℕ) → Type 0
Joined ps k ts ts' = (i : ℕ) → ts' i ≡ ts i ++ on_level k i ps

pub Joined-none : (k : Kernel) (ts : ℕ → List ℕ) → Joined [] k ts ts
Joined-none k ts i = sym (append-nil (ts i))

pub Joined-one :
    (p : ℕ) (k : Kernel) (ts : ℕ → List ℕ)
    → let i = level_for p k in Joined (p ∷ []) k ts (with_row ts i (ts i ++ (p ∷ [])))
Joined-one p k ts i = elim (Bool-cases (i == level_for p k)) [
  | inl e ↦ rw (e, ==→eq i (level_for p k) e) refl
  | inr e ↦ rw e (sym (append-nil (ts i)))
]

on_level-append :
    (k : Kernel) (i : ℕ) (ps qs : List ℕ)
    → on_level k i (ps ++ qs) ≡ on_level k i ps ++ on_level k i qs
on_level-append k i [] qs = refl
on_level-append k i (p ∷ ps) qs = elim (Bool-cases (i == level_for p k)) [
  | inl e ↦ rw e (ap (λ r. p ∷ r) (on_level-append k i ps qs))
  | inr e ↦ rw e (on_level-append k i ps qs)
]

pub on_level-cong :
    (k k₁ : Kernel) (i : ℕ) (ps : List ℕ)
    → All (λ p. level_for p k₁ ≡ level_for p k) ps
    → on_level k₁ i ps ≡ on_level k i ps
on_level-cong k k₁ i [] h = refl
on_level-cong k k₁ i (p ∷ ps) h = rw (h.0, on_level-cong k k₁ i ps h.1) refl

-- One after another, when the first ones leave the levels of the others as they are.
pub Joined-append :
    (ps qs : List ℕ) (k k₁ : Kernel) (ts t₁ t₂ : ℕ → List ℕ)
    → All (λ p. level_for p k₁ ≡ level_for p k) qs
    → Joined ps k ts t₁
    → Joined qs k₁ t₁ t₂
    → Joined (ps ++ qs) k ts t₂
Joined-append ps qs k k₁ ts t₁ t₂ h a b i =
    b i
    ∙ ap (λ r. r ++ on_level k₁ i qs) (a i)
    ∙ append_assoc (ts i) (on_level k i ps) (on_level k₁ i qs)
    ∙ ap (λ r. ts i ++ (on_level k i ps ++ r)) (on_level-cong k k₁ i qs h)
    ∙ ap (λ r. ts i ++ r) (sym (on_level-append k i ps qs))
