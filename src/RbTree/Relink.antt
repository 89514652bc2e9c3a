-- ===== src/RbTree/Relink.antt =====
-- What `relink` and a change of one child do to the fields.
use x_os_tmp.Base.{
  ℕ, ◌≡◌, ◌≢◌, refl, ◌==◌, if◌then◌else◌, Bool-cases, inl, inr, set_at_self, set_at_ne,
}
use x_os_tmp.RbTree.{Side, left, right, opp, Nodes, relink, put}

pub relink-parent : (p a b : ℕ) (s : Nodes) → (relink p a b s).parent ≡ s.parent
unfolding relink
relink-parent p a b s = elim (Bool-cases (s.child left p == a)) [
  | inl e ↦ rw e refl
  | inr e ↦ rw e refl
]

pub relink-color : (p a b : ℕ) (s : Nodes) → (relink p a b s).color ≡ s.color
unfolding relink
relink-color p a b s = elim (Bool-cases (s.child left p == a)) [
  | inl e ↦ rw e refl
  | inr e ↦ rw e refl
]

pub relink-other :
    (p a b : ℕ) (s : Nodes) (e : Side) (z : ℕ) → z ≢ p → (relink p a b s).child e z ≡ s.child e z
unfolding relink
relink-other p a b s left z h = elim (Bool-cases (s.child left p == a)) [
  | inl e ↦ rw e (set_at_ne (s.child left) p b z h)
  | inr e ↦ rw e refl
]
relink-other p a b s right z h = elim (Bool-cases (s.child left p == a)) [
  | inl e ↦ rw e refl
  | inr e ↦ rw e (set_at_ne (s.child right) p b z h)
]

pub relink-left :
    (p a b : ℕ) (s : Nodes)
    → (relink p a b s).child left p ≡ (if s.child left p == a then b else s.child left p)
unfolding relink
relink-left p a b s = elim (Bool-cases (s.child left p == a)) [
  | inl e ↦ rw e (set_at_self (s.child left) p b)
  | inr e ↦ rw e refl
]

pub relink-right :
    (p a b : ℕ) (s : Nodes)
    → (relink p a b s).child right p ≡ (if s.child left p == a then s.child right p else b)
unfolding relink
relink-right p a b s = elim (Bool-cases (s.child left p == a)) [
  | inl e ↦ rw e refl
  | inr e ↦ rw e (set_at_self (s.child right) p b)
]

pub put_self : (d : Side) (x v : ℕ) (f : Side → ℕ → ℕ) → put d x v f d x ≡ v
put_self left x v f = set_at_self (f left) x v
put_self right x v f = set_at_self (f right) x v

pub put_ne : (d e : Side) (x v : ℕ) (f : Side → ℕ → ℕ) (z : ℕ) → z ≢ x → put d x v f e z ≡ f e z
put_ne left left x v f z h = set_at_ne (f left) x v z h
put_ne left right x v f z h = refl
put_ne right left x v f z h = refl
put_ne right right x v f z h = set_at_ne (f right) x v z h

pub put-opp : (d : Side) (x v : ℕ) (f : Side → ℕ → ℕ) (z : ℕ) → put d x v f (opp d) z ≡ f (opp d) z
put-opp left x v f z = refl
put-opp right x v f z = refl

pub opp-put : (d : Side) (x v : ℕ) (f : Side → ℕ → ℕ) (z : ℕ) → put (opp d) x v f d z ≡ f d z
opp-put left x v f z = refl
opp-put right x v f z = refl
