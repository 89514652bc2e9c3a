-- ===== src/Buddy/Unlink.antt =====
-- `unlink_block` and `push` on the lists of all levels, with their links back.
use x_os_tmp.Base.{
  ℕ, ◌+◌, ◌≤◌, ◌≡◌, ◌≢◌, refl, sym, ap, subst, ◌∙◌, Option, none, some, List, [], ◌∷◌, ◌++◌, arith,
  set_at, set_at_self, set_at_ne, one, one_self, one_eq, occurs, occurs-append,
}
use x_os_tmp.Buddy.{Buddy, set_in, set_prev, unlink_block, push}
use x_os_tmp.Buddy.Blocks.{Chain, Chain-frame, set_prev-next, set_prev-list_head}
use x_os_tmp.Buddy.Links.{
  Back, Back-frame, last_or, first_of, set_some, last_or-occurs, Chain-first, Chain-at, Back-at,
  Chain-unlink, Back-unlink,
}

set_prev-prev :
    (n : ℕ) (o v : Option ℕ) (b : Buddy) → (set_prev n o v b).prev n ≡ set_some (b.prev n) o v
set_prev-prev n none v b = refl
set_prev-prev n (some q) v b = set_at_self b.prev n (set_at (b.prev n) q v)

set_prev-prev_ne :
    (n m : ℕ) (o v : Option ℕ) (b : Buddy) → m ≢ n → (set_prev n o v b).prev m ≡ b.prev m
set_prev-prev_ne n m none v b h = refl
set_prev-prev_ne n m (some q) v b h = set_at_ne b.prev n (set_at (b.prev n) q v) m h

set_prev-map : (n : ℕ) (o v : Option ℕ) (b : Buddy) → (set_prev n o v b).map ≡ b.map
set_prev-map n none v b = refl
set_prev-map n (some q) v b = refl

-- The list of the level n has become `ps`, and the other lists are as before.
pub record Relisted (n : ℕ) (ps : List ℕ) (b b' : Buddy) : Type 0 where
  pub chain : Chain (b'.next n) (b'.list_head n) ps
  pub back : Back (b'.prev n) none ps
  pub nexts : (m : ℕ) → m ≢ n → b'.next m ≡ b.next m
  pub prevs : (m : ℕ) → m ≢ n → b'.prev m ≡ b.prev m
  pub heads : (m : ℕ) → m ≢ n → b'.list_head m ≡ b.list_head m
  pub maps : b'.map ≡ b.map

last_some : (x : ℕ) (xs : List ℕ) → (r : ℕ) × (last_or (some x) xs ≡ some r)
last_some x [] = (x, refl)
last_some x (y ∷ xs) = last_some y xs

module _ (n q : ℕ) (ys : List ℕ) (b : Buddy) where
  -- The state between the two assignments, and the link that the second one changes.
  second-Relisted :
      (b₁ : Buddy) (xs : List ℕ)
      → b₁.next n q ≡ first_of ys
      → b₁.prev ≡ b.prev
      → b₁.map ≡ b.map
      → Chain (b₁.next n) (b₁.list_head n) (xs ++ ys)
      → Back (set_some (b.prev n) (first_of ys) (last_or none xs)) none (xs ++ ys)
      → b.prev n q ≡ last_or none xs
      → ((m : ℕ) → m ≢ n → b₁.next m ≡ b.next m)
      → ((m : ℕ) → m ≢ n → b₁.list_head m ≡ b.list_head m)
      → Relisted n (xs ++ ys) b (set_prev n (b₁.next n q) (b₁.prev n q) b₁)
  second-Relisted b₁ xs e p w c k l f g =
      let o = b₁.next n q in
      let v = b₁.prev n q in
      let ev : v ≡ last_or none xs = ap (λ h. h n q) p ∙ l in
      record {
        chain = rw (set_prev-next n o v b₁, set_prev-list_head n o v b₁) c;
        back =
            subst (λ h. Back h none (xs ++ ys))
              (sym (
                set_prev-prev n o v b₁
                ∙ ap (λ h. set_some (h n) o v) p
                ∙ ap (λ z. set_some (b.prev n) z v) e
                ∙ ap (λ z. set_some (b.prev n) (first_of ys) z) ev))
              k;
        nexts = λ m h. ap (λ z. z m) (set_prev-next n o v b₁) ∙ f m h;
        prevs = λ m h. set_prev-prev_ne n m o v b₁ h ∙ ap (λ z. z m) p;
        heads = λ m h. ap (λ z. z m) (set_prev-list_head n o v b₁) ∙ g m h;
        maps = set_prev-map n o v b₁ ∙ w;
      }

  pub unlink_block-Relisted :
      (xs : List ℕ)
      → ((z : ℕ) → occurs z (xs ++ (q ∷ ys)) ≤ 1)
      → Chain (b.next n) (b.list_head n) (xs ++ (q ∷ ys))
      → Back (b.prev n) none (xs ++ (q ∷ ys))
      → Relisted n (xs ++ ys) b (unlink_block n q b)
  unfolding occurs
  unlink_block-Relisted [] d c k = rw (k.0) (
      second-Relisted (record b { list_head = set_at b.list_head n (b.next n q) }) []
        (Chain-first (b.next n) (b.next n q) ys c.1) refl refl
        (rw (set_at_self b.list_head n (b.next n q)) c.1)
        (Back-unlink (b.next n) (b.prev n) q ys none [] d k) k.0 (λ m h. refl)
        (λ m h. set_at_ne b.list_head n (b.next n q) m h))
  unlink_block-Relisted (x ∷ xs) d c k = behind (last_some x xs).0 (last_some x xs).1
    where
      in_rest : 1 ≤ occurs q (q ∷ ys)
      in_rest = omega (arith, one_self q)

      behind :
          (r : ℕ)
          → last_or (some x) xs ≡ some r
          → Relisted n (x ∷ (xs ++ ys)) b (unlink_block n q b)
      behind r e =
          let next = set_at (b.next n) r (b.next n q) in
          let l : b.prev n q ≡ last_or none (x ∷ xs) =
            Back-at (b.next n) (b.prev n) q ys none (x ∷ xs) k in
          let inner : set_in b.next n r (b.next n q) n ≡ next = set_at_self b.next n next in
          let apart : q ≢ r = λ h. omega (
            arith,
            d q,
            last_or-occurs x q xs (e ∙ ap some (sym h)),
            occurs-append q (x ∷ xs) (q ∷ ys),
            in_rest,
          ) in
          rw (l ∙ e) (
            second-Relisted (record b { next = set_in b.next n r (b.next n q) }) (x ∷ xs)
              (ap (λ f. f q) inner
                ∙ set_at_ne (b.next n) r (b.next n q) q apart
                ∙ Chain-first (b.next n) (b.next n q) ys
                    (Chain-at (b.next n) (b.prev n) q ys (b.list_head n) (x ∷ xs) c))
              refl refl
              (subst (λ f. Chain f (b.list_head n) (x ∷ (xs ++ ys)))
                (ap (λ o. set_some (b.next n) o (b.next n q)) e ∙ sym inner)
                (Chain-unlink (b.next n) (b.prev n) q ys (b.list_head n) x xs d c))
              (Back-unlink (b.next n) (b.prev n) q ys none (x ∷ xs) d k) l
              (λ m h. set_at_ne b.next n next m h) (λ m h. refl))

-- A block that is not in the list is put at its front.
pub push-Relisted :
    (n p : ℕ) (ps : List ℕ) (b : Buddy)
    → ((z : ℕ) → occurs z (p ∷ ps) ≤ 1)
    → Chain (b.next n) (b.list_head n) ps
    → Back (b.prev n) none ps
    → Relisted n (p ∷ ps) b (push n p b)
unfolding occurs
push-Relisted n p ps b d c k = record {
  chain =
      subst (λ f. Chain f ((push n p b).list_head n) (p ∷ ps)) (sym link)
        (
          set_at_self (set_prev n o (some p) b₁).list_head n (some p),
          subst (λ w. Chain (set_at (b.next n) p o) w ps) (sym (set_at_self (b.next n) p o))
              (Chain-frame (b.next n) (set_at (b.next n) p o) o ps
                (λ z m. set_at_ne (b.next n) p o z (apart z m)) c),
        );
  back = subst (λ f. Back f none (p ∷ ps)) (sym link_back) (first_back ps d c k);
  nexts = λ m h.
      ap (λ f. f m) (set_prev-next n o (some p) b₁)
      ∙ set_at_ne b.next n (set_at (b.next n) p o) m h;
  prevs = λ m h.
      set_prev-prev_ne n m o (some p) b₁ h ∙ set_at_ne b.prev n (set_at (b.prev n) p none) m h;
  heads = λ m h.
      set_at_ne (set_prev n o (some p) b₁).list_head n (some p) m h
      ∙ ap (λ f. f m) (set_prev-list_head n o (some p) b₁);
  maps = set_prev-map n o (some p) b₁;
}
  where
    o : Option ℕ
    o = b.list_head n

    b₁ : Buddy
    b₁ = record b { next = set_in b.next n p o; prev = set_in b.prev n p none }

    link : (push n p b).next n ≡ set_at (b.next n) p o
    link =
        ap (λ f. f n) (set_prev-next n o (some p) b₁) ∙ set_at_self b.next n (set_at (b.next n) p o)

    apart : (z : ℕ) → 1 ≤ occurs z ps → z ≢ p
    apart z m e = omega (arith, d z, one_eq z p e)

    link_back : (push n p b).prev n ≡ set_some (set_at (b.prev n) p none) o (some p)
    link_back =
        set_prev-prev n o (some p) b₁
        ∙ ap (λ f. set_some f o (some p)) (set_at_self b.prev n (set_at (b.prev n) p none))

    first_back :
        (zs : List ℕ)
        → ((z : ℕ) → one z p + occurs z zs ≤ 1)
        → Chain (b.next n) o zs
        → Back (b.prev n) none zs
        → Back (set_some (set_at (b.prev n) p none) o (some p)) none (p ∷ zs)
    first_back [] d c k = (rw c (set_at_self (b.prev n) p none), tt)
    first_back (z ∷ zs) d c k =
        subst (λ w. Back (set_some (set_at (b.prev n) p none) w (some p)) none (p ∷ z ∷ zs))
          (sym c.0)
          (
            set_at_ne (set_at (b.prev n) p none) z (some p) p
                  (λ e. omega (arith, d z, one_self z, one_eq z p (sym e)))
                ∙ set_at_self (b.prev n) p none,
            (
              set_at_self (set_at (b.prev n) p none) z (some p),
              Back-frame (b.prev n) (set_at (set_at (b.prev n) p none) z (some p)) (some z) zs
                  (λ w m.
                    set_at_ne (set_at (b.prev n) p none) z (some p) w
                      (λ e. omega (arith, d w, m, one_eq w z e))
                    ∙ set_at_ne (b.prev n) p none w (λ e. omega (arith, d w, m, one_eq w p e)))
                  k.1,
            ),
          )
