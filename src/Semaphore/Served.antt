-- ===== src/Semaphore/Served.antt =====
-- What a number of units pays for, and the state of a semaphore that has served its waiters.
use x_os_tmp.Base.{
  ℕ, ◌-◌, ◌≡◌, ◌≢◌, refl, sym, ◌∙◌, ap, subst, ltb, false, List, [], ◌∷◌, if◌then◌else◌, All,
  All-imp, Fresh, Bool-cases, inl, inr, set_at, set_at_self, set_at_ne, In, Fresh-not-In,
}
use x_os_tmp.CircularList.{Links}
use x_os_tmp.CircularList.Seg.{Ring}
use x_os_tmp.Kernel.{Kernel, process_running}
use x_os_tmp.CircularList.Rings.{All-of_In}
use x_os_tmp.Sched.Joined.{level_for}
use x_os_tmp.Wait.Wake.{Untouched, Untouched-level}

-- What `have` units buy from a queue of demands: the waiters served, those left, the units left.
abbrev pub served : (ℕ → ℕ) → ℕ → List ℕ → List ℕ
served demand have [] = []
served demand have (p ∷ ps) =
    if ltb have (demand p) then [] else p ∷ served demand (have - demand p) ps

abbrev pub unserved : (ℕ → ℕ) → ℕ → List ℕ → List ℕ
unserved demand have [] = []
unserved demand have (p ∷ ps) =
    if ltb have (demand p) then p ∷ ps else unserved demand (have - demand p) ps

abbrev pub spare : (ℕ → ℕ) → ℕ → List ℕ → ℕ
spare demand have [] = have
spare demand have (p ∷ ps) = if ltb have (demand p) then have else spare demand (have - demand p) ps

-- The state of the semaphore `s` after `k` served its waiters `ps` with `have` units.
pub record Served (s have : ℕ) (ps : List ℕ) (k k' : Kernel) : Type 0 where
  pub waiters : Ring k'.wait_links s (unserved k.demand have ps)
  pub surplus : k'.surplus s ≡ spare k.demand have ps
  pub awake :
      All (λ p. (k'.state p ≡ process_running) × (k'.demand p ≡ 0)) (served k.demand have ps)
  pub others :
      (p : ℕ)
      → (In p (served k.demand have ps) → ⊥)
      → (k'.state p ≡ k.state p) × (k'.demand p ≡ k.demand p)
  pub cur_process : k'.cur_process ≡ k.cur_process

served-cong :
    (f g : ℕ → ℕ) (have : ℕ) (ps : List ℕ)
    → All (λ p. f p ≡ g p) ps
    → (served f have ps ≡ served g have ps)
      × (unserved f have ps ≡ unserved g have ps)
      × (spare f have ps ≡ spare g have ps)
served-cong f g have [] h = (refl, refl, refl)
served-cong f g have (p ∷ ps) h =
    let (a, b, c) = served-cong f g (have - g p) ps h.1 in
    rw (h.0) (rw (a, b, c) (refl, refl, refl))

pub served-In : (f : ℕ → ℕ) (have : ℕ) (ps : List ℕ) (q : ℕ) → In q (served f have ps) → In q ps
served-In f have [] q k = k
served-In f have (p ∷ ps) q k = elim (Bool-cases (ltb have (f p))) [
  | inl e ↦ absurd (rw e at k)
  | inr e ↦ go (served-In f (have - f p) ps q) (rw e at k)
]
  where
    go :
        (In q (served f (have - f p) ps) → In q ps)
        → In q (p ∷ served f (have - f p) ps)
        → In q (p ∷ ps)
    go ih (inl w) = inl w
    go ih (inr w) = inr (ih w)

-- A waiter that has been served has no demand; what the units buy from the rest is as before.
pub served-told :
    (have p : ℕ) (ps : List ℕ) (k k₂ : Kernel)
    → Fresh p ps
    → Untouched p k k₂
    → served (set_at k₂.demand p 0) have ps ≡ served k.demand have ps
served-told have p ps k k₂ f u =
    (served-cong (set_at k₂.demand p 0) k.demand have ps
      (All-imp ps (λ q ne. set_at_ne k₂.demand p 0 q ne ∙ ap (λ h. h q) u.demand) f)).0

-- The levels of those served later are as before.
pub served-level :
    (f : ℕ → ℕ) (have p : ℕ) (ps : List ℕ) (k k₂ : Kernel)
    → Fresh p ps
    → Untouched p k k₂
    → All (λ q. level_for q k₂ ≡ level_for q k) (served f have ps)
served-level f have p ps k k₂ fr u =
    All-of_In (λ q. level_for q k₂ ≡ level_for q k) (served f have ps)
      (λ q m.
        Untouched-level p k k₂ u q
          (λ e. Fresh-not-In p ps fr (subst (λ z. In z ps) e (served-In f have ps q m))))

-- The loop at a waiter that can be served, from the rest of the loop.
pub Served-cons :
    (s have p : ℕ) (ps : List ℕ) (k k₂ k' : Kernel) (l : Links) (g' : ℕ → ℕ)
    → ltb have (k.demand p) ≡ false
    → Fresh p ps
    → Untouched p k k₂
    → k₂.state p ≡ process_running
    → Served s
        (have - k.demand p)
        ps
        (record k₂ { wait_links = l; surplus = g'; demand = set_at k₂.demand p 0 })
        k'
    → Served s have (p ∷ ps) k k'
Served-cons s have p ps k k₂ k' l g' e f u run d = record {
  waiters = rw e (rw (same.1) at d.waiters);
  surplus = rw e (d.surplus ∙ same.2);
  awake = rw e ((p-state, p-demand), rw (same.0) at d.awake);
  others = λ q ne. rest q (rw e at ne);
  cur_process = d.cur_process ∙ u.cur_process;
}
  where
    g : ℕ → ℕ
    g = set_at k₂.demand p 0

    agree : All (λ q. g q ≡ k.demand q) ps
    agree = All-imp ps (λ q ne. set_at_ne k₂.demand p 0 q ne ∙ ap (λ h. h q) u.demand) f

    same :
        (served g (have - k.demand p) ps ≡ served k.demand (have - k.demand p) ps)
        × (unserved g (have - k.demand p) ps ≡ unserved k.demand (have - k.demand p) ps)
        × (spare g (have - k.demand p) ps ≡ spare k.demand (have - k.demand p) ps)
    same = served-cong g k.demand (have - k.demand p) ps agree

    out : In p (served g (have - k.demand p) ps) → ⊥
    out m = Fresh-not-In p ps f (served-In g (have - k.demand p) ps p m)

    p-state : k'.state p ≡ process_running
    p-state = (d.others p out).0 ∙ run

    p-demand : k'.demand p ≡ 0
    p-demand = (d.others p out).1 ∙ set_at_self k₂.demand p 0

    rest :
        (q : ℕ)
        → (In q (p ∷ served k.demand (have - k.demand p) ps) → ⊥)
        → (k'.state q ≡ k.state q) × (k'.demand q ≡ k.demand q)
    rest q ne =
        let apart : q ≢ p = λ w. ne (inl (sym w)) in
        let o = d.others q (λ m. ne (inr (rw (same.0) at m))) in
        (o.0 ∙ u.state q apart, o.1 ∙ set_at_ne k₂.demand p 0 q apart ∙ ap (λ h. h q) u.demand)
