-- ===== src/Buddy/Pairs.antt =====
-- The bit of a pair of blocks says whether one of the two alone is free.
use x_os_tmp.Base.{
  ℕ, ◌+◌, ◌-◌, ◌*◌, ◌/◌, ◌%◌, ◌^◌, ◌≤◌, ◌<◌, ◌≡◌, ◌≢◌, refl, sym, ap, ◌∙◌, ◌==◌, none, List, arith,
  Bool-cases, inl, inr, set_at_self, set_at_ne, ==→eq, ==→ne, occurs,
}
use x_os_tmp.Base.Bits.{bit, bit-xor_self, bit-xor_ne}
use x_os_tmp.CircularList.Rings.{with_row}
use x_os_tmp.Buddy.{Buddy, toggle}
use x_os_tmp.Buddy.Blocks.{Blocks, covers}
use x_os_tmp.Buddy.Links.{Back}
use x_os_tmp.Buddy.Unlink.{Relisted}

-- The bit of the pair i of the level n, and how many of its two blocks are in a list.
abbrev pub pair_bit : Buddy → ℕ → ℕ → ℕ
pair_bit b n i = bit (i % 32) (b.map n (i / 32))

abbrev pub free_of : List ℕ → ℕ → ℕ
free_of ps i = occurs (2 * i) ps + occurs (2 * i + 1) ps

-- The lists lead back, and the bits of the pairs below the highest level are those of the lists.
pub record Paired (b : Buddy) (t : ℕ → List ℕ) : Type 0 where
  pub back : (n : ℕ) → n < 15 → Back (b.prev n) none (t n)
  pub bits : (n i : ℕ) → n < 14 → pair_bit b n i ≡ free_of (t n) i % 2

pub toggle_self :
    (n pos : ℕ) (b : Buddy) → pair_bit (toggle n pos b) n (pos / 2) ≡ 1 - pair_bit b n (pos / 2)
toggle_self n pos b =
    ap (λ f. bit (pos / 2 % 32) (f (pos / 2 / 32))) (set_at_self b.map n _)
    ∙ ap (bit (pos / 2 % 32)) (set_at_self (b.map n) (pos / 2 / 32) _)
    ∙ bit-xor_self (pos / 2 % 32) (b.map n (pos / 2 / 32))

pub toggle_ne :
    (n pos : ℕ) (b : Buddy) (i : ℕ) → i ≢ pos / 2 → pair_bit (toggle n pos b) n i ≡ pair_bit b n i
toggle_ne n pos b i h =
    ap (λ f. bit (i % 32) (f (i / 32))) (set_at_self b.map n _)
    ∙ elim (Bool-cases (i / 32 == pos / 2 / 32)) [
      | inl e ↦
          let w = ==→eq (i / 32) (pos / 2 / 32) e in
          rw (e, w)
            (bit-xor_ne (i % 32) (pos / 2 % 32) (b.map n (pos / 2 / 32))
              (λ z. h (omega (arith, z, w))))
      | inr e ↦ rw e refl
    ]

pub toggle_level :
    (n m pos : ℕ) (b : Buddy) (i : ℕ) → m ≢ n → pair_bit (toggle n pos b) m i ≡ pair_bit b m i
toggle_level n m pos b i h = ap (λ f. bit (i % 32) (f (i / 32))) (set_at_ne b.map n _ m h)

module _ (n pos : ℕ) (ps : List ℕ) (b b' : Buddy) (t : ℕ → List ℕ)
    (r : Relisted n ps (toggle n pos b) b') where
  pub Relisted-Blocks :
      Blocks b t
      → ((p : ℕ) → 1 ≤ occurs p ps → p < 2 ^ (18 - n))
      → ((g : ℕ) → covers 15 0 (with_row t n ps) g ≤ 1)
      → Blocks b' (with_row t n ps)
  Relisted-Blocks s small apart = record {
    chain = λ m h. elim (Bool-cases (m == n)) [
      | inl e ↦ rw (e, ==→eq m n e) r.chain
      | inr e ↦ rw (e, r.nexts m (==→ne m n e), r.heads m (==→ne m n e)) (s.chain m h)
    ];
    inside = λ m p h o. elim (Bool-cases (m == n)) [
      | inl e ↦ rw (==→eq m n e) (small p (rw e at o))
      | inr e ↦ s.inside m p h (rw e at o)
    ];
    apart = apart;
  }

  -- The bit of the pair of the block follows, and the other pairs have not changed.
  pub Relisted-Paired :
      Paired b t
      → ((i : ℕ) → i ≢ pos / 2 → free_of ps i ≡ free_of (t n) i)
      → (n < 14 → 1 - pair_bit b n (pos / 2) ≡ free_of ps (pos / 2) % 2)
      → Paired b' (with_row t n ps)
  Relisted-Paired k others here = record {
    back = λ m h. elim (Bool-cases (m == n)) [
      | inl e ↦ rw (e, ==→eq m n e) r.back
      | inr e ↦ rw (e, r.prevs m (==→ne m n e)) (k.back m h)
    ];
    bits = λ m i h. elim (Bool-cases (m == n)) [
      | inl e ↦ rw (e) (at_level m i h (==→eq m n e))
      | inr e ↦ rw e (
          ap (λ f. bit (i % 32) (f m (i / 32))) r.maps
          ∙ toggle_level n m pos b i (==→ne m n e)
          ∙ k.bits m i h)
    ];
  }
    where
      at_level : (m i : ℕ) → m < 14 → m ≡ n → pair_bit b' m i ≡ free_of ps i % 2
      at_level m i h e =
          ap (λ f. bit (i % 32) (f m (i / 32))) r.maps
          ∙ ap (λ w. pair_bit (toggle n pos b) w i) e
          ∙ elim (Bool-cases (i == pos / 2)) [
            | inl q ↦
                ap (pair_bit (toggle n pos b) n) (==→eq i (pos / 2) q)
                ∙ toggle_self n pos b
                ∙ here (omega (arith, h, e))
                ∙ ap (λ w. free_of ps w % 2) (sym (==→eq i (pos / 2) q))
            | inr q ↦
                toggle_ne n pos b i (==→ne i (pos / 2) q)
                ∙ k.bits n i (omega (arith, h, e))
                ∙ ap (λ w. w % 2) (sym (others i (==→ne i (pos / 2) q)))
          ]
