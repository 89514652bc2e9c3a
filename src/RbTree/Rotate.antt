-- ===== src/RbTree/Rotate.antt =====
-- A rotation turns one node and its child round, and leaves the rest of the tree alone.
use x_os_tmp.Base.{
  ℕ, ◌+◌, ◌≤◌, ◌≡◌, ◌≢◌, refl, sym, ap, subst, ◌∙◌, ◌==◌, if◌then◌else◌, List, arith, set_at,
  set_at_self, set_at_ne,
}
use x_os_tmp.RbTree.{
  Color, Side, left, right, opp, Nodes, nil, set_parent, set_child, relink, put, rotate,
}
use x_os_tmp.RbTree.Shape.{
  Tree, join, Frame, one, one_self, ne_of_one, occ, occ_above, occ-join, Once, Sub, Hole, Sub-root,
  Sub-join, Hole-parent, Parts, join-Parts,
}
use x_os_tmp.RbTree.Frame.{Same, Sub-frame, Sub-moved, Hole-relinked}
use x_os_tmp.RbTree.Relink.{
  relink-parent, relink-color, relink-other, relink-left, relink-right, put_self, put_ne, put-opp,
  opp-put,
}

-- The rotation of `x`, whose child on the other side is `y`, and `b` is the child of `y` between.
module _ (d : Side) (x : ℕ) (s : Nodes) where
  abbrev y : ℕ
  y = s.child (opp d) x

  abbrev b : ℕ
  b = s.child d y

  abbrev p : ℕ
  p = s.parent x

  -- The store when `b` hangs below `x`.
  abbrev cut : Nodes
  cut = set_parent b x (set_child (opp d) x b s)

  abbrev turned : Nodes
  turned = record {
    color = s.color;
    parent = set_at (set_at (set_at s.parent b x) y p) x y;
    child = put d y x (relink p x y cut).child;
  }

  rotate-turned : b ≢ x → rotate d x s ≡ turned
  unfolding rotate
  rotate-turned h =
      rw
        (
          opp-put d x b s.child y,
          set_at_ne s.parent b x x (λ e. h (sym e)),
          relink-parent p x y cut,
          relink-color p x y cut,
          set_at_ne s.parent b x x (λ e. h (sym e)),
        )
        refl

  turned-Same : (z : ℕ) → z ≢ x → z ≢ y → z ≢ p → z ≢ b → Same s turned z
  turned-Same z hx hy hp hb = record {
    color = refl;
    parent =
        set_at_ne (set_at (set_at s.parent b x) y p) x y z hx
        ∙ set_at_ne (set_at s.parent b x) y p z hy
        ∙ set_at_ne s.parent b x z hb;
    child = λ e.
        put_ne d e y x (relink p x y cut).child z hy
        ∙ relink-other p x y cut e z hp
        ∙ put_ne (opp d) e x b s.child z hx;
  }

  module _ (head : ℕ) (k : List Frame) (c cy : Color) (ta tb te : Tree) (hc : s.color x ≡ c)
      (hcy : s.color y ≡ cy) (na : Sub s x (s.child d x) ta) (nb : Sub s y b tb)
      (ne : Sub s y (s.child (opp d) y) te) (hole : Hole s head k p x)
      (o : (z : ℕ)
        → one z x
            + one z y
            + occ z ta
            + occ z tb
            + occ z te
            + occ_above z k
            + one z head
            + one z nil
          ≤ 1) where
    at_b : (z : ℕ) → one z b ≤ occ z tb + one z nil
    at_b = Sub-root s y b tb nb

    at_p : (z : ℕ) → one z p ≤ occ_above z k + one z head
    at_p = Hole-parent s head k p x hole

    x-ne-y : x ≢ y
    x-ne-y = ne_of_one x y (omega (arith, o x, one_self x))

    x-ne-p : x ≢ p
    x-ne-p = ne_of_one x p (omega (arith, o x, one_self x, at_p x))

    x-ne-b : x ≢ b
    x-ne-b = ne_of_one x b (omega (arith, o x, one_self x, at_b x))

    y-ne-p : y ≢ p
    y-ne-p = ne_of_one y p (omega (arith, o y, one_self y, at_p y))

    y-ne-b : y ≢ b
    y-ne-b = ne_of_one y b (omega (arith, o y, one_self y, at_b y))

    p-ne-b : p ≢ b
    p-ne-b = ne_of_one p b (omega (arith, o p, one_self p, at_p p, at_b p))

    apart_a : (z : ℕ) → 1 ≤ occ z ta + occ z te → Same s turned z
    apart_a z m =
        turned-Same z (ne_of_one z x (omega (arith, o z))) (ne_of_one z y (omega (arith, o z)))
          (ne_of_one z p (omega (arith, o z, at_p z))) (ne_of_one z b (omega (arith, o z, at_b z)))

    apart_b : (z : ℕ) → 1 ≤ occ z tb → z ≢ b → Same s turned z
    apart_b z m nb' =
        turned-Same z (ne_of_one z x (omega (arith, o z))) (ne_of_one z y (omega (arith, o z)))
          (ne_of_one z p (omega (arith, o z, at_p z))) nb'

    apart_k : (z : ℕ) → z ≢ p → 1 ≤ occ_above z k + one z head → Same s turned z
    apart_k z np m =
        turned-Same z (ne_of_one z x (omega (arith, o z))) (ne_of_one z y (omega (arith, o z))) np
          (ne_of_one z b (omega (arith, o z, at_b z)))

    turned_b-child : (e : Side) → turned.child e b ≡ s.child e b
    turned_b-child e =
        put_ne d e y x (relink p x y cut).child b (λ w. y-ne-b (sym w))
        ∙ relink-other p x y cut e b (λ w. p-ne-b (sym w))
        ∙ put_ne (opp d) e x b s.child b (λ w. x-ne-b (sym w))

    turned_b-parent : turned.parent b ≡ x
    turned_b-parent =
        set_at_ne (set_at (set_at s.parent b x) y p) x y b (λ w. x-ne-b (sym w))
        ∙ set_at_ne (set_at s.parent b x) y p b (λ w. y-ne-b (sym w))
        ∙ set_at_self s.parent b x

    turned_x-near : turned.child d x ≡ s.child d x
    turned_x-near =
        put_ne d d y x (relink p x y cut).child x x-ne-y
        ∙ relink-other p x y cut d x x-ne-p
        ∙ opp-put d x b s.child x

    turned_x-far : turned.child (opp d) x ≡ b
    turned_x-far =
        put_ne d (opp d) y x (relink p x y cut).child x x-ne-y
        ∙ relink-other p x y cut (opp d) x x-ne-p
        ∙ put_self (opp d) x b s.child

    turned_y-far : turned.child (opp d) y ≡ s.child (opp d) y
    turned_y-far =
        put-opp d y x (relink p x y cut).child y
        ∙ relink-other p x y cut (opp d) y y-ne-p
        ∙ put_ne (opp d) (opp d) x b s.child y (λ w. x-ne-y (sym w))

    turned_y-near : turned.child d y ≡ x
    turned_y-near = put_self d y x (relink p x y cut).child

    turned_y-parent : turned.parent y ≡ p
    turned_y-parent =
        set_at_ne (set_at (set_at s.parent b x) y p) x y y (λ w. x-ne-y (sym w))
        ∙ set_at_self (set_at s.parent b x) y p

    turned_p-child : (e : Side) → turned.child e p ≡ (relink p x y cut).child e p
    turned_p-child e = put_ne d e y x (relink p x y cut).child p (λ w. y-ne-p (sym w))

    cut_p : (e : Side) → cut.child e p ≡ s.child e p
    cut_p e = put_ne (opp d) e x b s.child p (λ w. x-ne-p (sym w))

    turned-Sub : Sub turned p y (join d cy (join d c ta x tb) y te)
    turned-Sub =
        Sub-join turned p d cy (join d c ta x tb) y te hcy turned_y-parent
          (rw turned_y-near (
            Sub-join turned y d c ta x tb hc (set_at_self (set_at (set_at s.parent b x) y p) x y)
              (rw turned_x-near
                (Sub-frame s turned x (s.child d x) ta (λ z m. apart_a z (omega arith)) na))
              (rw turned_x-far (
                Sub-moved s turned y x b tb (λ z. omega (arith, o z)) apart_b
                  (λ m. (refl, turned_b-child)) (λ m. turned_b-parent) nb))))
          (rw turned_y-far
            (Sub-frame s turned y (s.child (opp d) y) te (λ z m. apart_a z (omega arith)) ne))

    turned-Hole : Hole turned head k p y
    turned-Hole =
        Hole-relinked s turned head k p x y (ne_of_one x nil (omega (arith, o x, one_self x)))
          (λ z. omega (arith, o z)) apart_k refl
          (set_at_ne (set_at (set_at s.parent b x) y p) x y p (λ w. x-ne-p (sym w))
            ∙ set_at_ne (set_at s.parent b x) y p p (λ w. y-ne-p (sym w))
            ∙ set_at_ne s.parent b x p p-ne-b)
          (turned_p-child left
            ∙ relink-left p x y cut
            ∙ ap (λ w. if w == x then y else w) (cut_p left))
          (turned_p-child right
            ∙ relink-right p x y cut
            ∙ ap (λ w. if w == x then cut.child right p else y) (cut_p left)
            ∙ ap (λ w. if s.child left p == x then w else y) (cut_p right))
          hole

-- The tree at a place, with the rotated part, and the store that holds it.
abbrev pub Turned : Nodes → Nodes → ℕ → List Frame → ℕ → ℕ → Tree → Type 0
Turned s s' head k q y t = Sub s' q y t × Hole s' head k q y × (s'.color ≡ s.color)

rotate_self :
    (d : Side) (s : Nodes) (head : ℕ) (k : List Frame) (x : ℕ) (c cy : Color) (ta tb te : Tree)
    → Sub s (s.parent x) x (join d c ta x (join d cy tb (s.child (opp d) x) te))
    → Hole s head k (s.parent x) x
    → Once head (join d c ta x (join d cy tb (s.child (opp d) x) te)) k
    → Turned s
        (rotate d x s)
        head
        k
        (s.parent x)
        (s.child (opp d) x)
        (join d cy (join d c ta x tb) (s.child (opp d) x) te)
rotate_self d s head k x c cy ta tb te h hole o =
    rw
      (rotate-turned d x s (λ e.
        x-ne-b d x s head k c cy ta tb te P.color Q.color P.near Q.near Q.far hole o' (sym e)))
      (
        turned-Sub d x s head k c cy ta tb te P.color Q.color P.near Q.near Q.far hole o',
        turned-Hole d x s head k c cy ta tb te P.color Q.color P.near Q.near Q.far hole o',
        refl,
      )
  where
    P : Parts s (s.parent x) x d c ta x (join d cy tb (s.child (opp d) x) te)
    P = join-Parts s (s.parent x) x d c ta x (join d cy tb (s.child (opp d) x) te) h

    Q : Parts s x (s.child (opp d) x) d cy tb (s.child (opp d) x) te
    Q = join-Parts s x (s.child (opp d) x) d cy tb (s.child (opp d) x) te P.far

    o' :
        (z : ℕ)
        → one z x
            + one z (s.child (opp d) x)
            + occ z ta
            + occ z tb
            + occ z te
            + occ_above z k
            + one z head
            + one z nil
          ≤ 1
    o' z = omega (
      arith,
      o z,
      occ-join z d c ta x (join d cy tb (s.child (opp d) x) te),
      occ-join z d cy tb (s.child (opp d) x) te,
    )

-- The rotation of the node `x` at a place: its child `y` on the other side takes the place, with
-- the order of the nodes kept.
pub rotate-Turned :
    (d : Side) (s : Nodes) (head : ℕ) (k : List Frame) (q x y : ℕ) (c cy : Color) (ta tb te : Tree)
    → Sub s q x (join d c ta x (join d cy tb y te))
    → Hole s head k q x
    → Once head (join d c ta x (join d cy tb y te)) k
    → Turned s (rotate d x s) head k q y (join d cy (join d c ta x tb) y te)
rotate-Turned d s head k q x y c cy ta tb te h hole o =
    subst (λ w. Turned s (rotate d x s) head k w y (join d cy (join d c ta x tb) y te)) P.parent
      (subst
        (λ w.
          Sub s (s.parent x) x (join d c ta x (join d cy tb w te))
          → Once head (join d c ta x (join d cy tb w te)) k
          → Turned s (rotate d x s) head k (s.parent x) w (join d cy (join d c ta x tb) w te))
        at_y
        (λ h' o'.
          rotate_self d s head k x c cy ta tb te h'
            (subst (λ w. Hole s head k w x) (sym P.parent) hole) o')
        (subst (λ w. Sub s w x (join d c ta x (join d cy tb y te))) (sym P.parent) h) o)
  where
    P : Parts s q x d c ta x (join d cy tb y te)
    P = join-Parts s q x d c ta x (join d cy tb y te) h

    at_y : s.child (opp d) x ≡ y
    at_y = (join-Parts s x (s.child (opp d) x) d cy tb y te P.far).at
