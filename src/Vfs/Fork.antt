-- ===== src/Vfs/Fork.antt =====
-- `fd_fork`: what a new process inherits of the descriptors below INNER_FD_COUNT.
use x_os_tmp.Base.{
  ℕ, zero, suc, ◌+◌, ◌-◌, ◌%◌, ◌^◌, ◌≤◌, ◌<◌, ◌≡◌, ◌≢◌, refl, ap, ◌∙◌, ◌==◌, leb, if◌then◌else◌,
  Bool, false, Bool-cases, inl, inr, Option, none, some, pos, Run, ok, arith, set_at, set_at_self,
  set_at_ne, one, one_self, one_ne, ==→eq, ==→ne, lt→ltb, le→ltb,
}
use x_os_tmp.LevelBitmap.{level_bitmap_bit_set}
use x_os_tmp.LevelBitmap.Leaf.{level_bitmap_bit_clear-ok}
use x_os_tmp.Vfs.{FdStruct}
use x_os_tmp.Vfs.Fds.{
  FdTable, Files, blank, closes_on_fork, init_fd_info, skip_to, bind_in, vfs_bind_fd, fork_from,
  fd_fork,
}

-- An entry that the new process gets.
abbrev pub inherits : FdStruct → Bool
inherits e = elim e.inode [ none ↦ false | some _ ↦ closes_on_fork e.auth == 0 ]

-- How many of the `n` entries from i on that are inherited lead to the inode y.
unfoldable pub opened : (ℕ → FdStruct) → ℕ → ℕ → ℕ → ℕ
opened entries i zero y = 0
opened entries i (suc n) y =
    (if inherits (entries i)
      then elim (entries i).inode [ none ↦ 0 | some inode ↦ one y inode ]
      else 0)
    + opened entries (i + 1) n y

-- The table has its descriptors below i, and no pages of its own.
pub record Small (i : ℕ) (t : FdTable) : Type 0 where
  pub size : t.fd_size ≤ i
  pub capacity : t.fd_capacity ≡ 8
  pub own : t.fd_append ≡ 0

skip_to-Small :
    (n : ℕ) (t : FdTable) (i : ℕ)
    → t.fd_capacity ≡ 8
    → t.fd_size + n ≡ i
    → ((skip_to n t).fd_size ≡ i)
      × ((skip_to n t).fd_capacity ≡ 8)
      × ((skip_to n t).fds ≡ t.fds)
      × ((skip_to n t).fd_append ≡ t.fd_append)
unfolding skip_to
skip_to-Small zero t i c e = (omega (arith, e), c, refl, refl)
skip_to-Small (suc n) t i c e =
    skip_to-Small n
      (record t {
        level_bitmap = (level_bitmap_bit_set t.fd_size t.level_bitmap).1;
        fd_size = t.fd_size + 1;
      })
      i c (omega (arith, e))

-- What a descriptor below 8 that is bound behind the others leaves.
record Bound (fd auth inode : ℕ) (t : FdTable) (f : Files) (t' : FdTable) (f' : Files)
    : Type 0 where
  small : Small (fd + 1) t'
  entry : t'.fds ≡ set_at t.fds fd (record { inode = some inode; auth = auth })
  counts : f'.open_count ≡ set_at f.open_count inode ((f.open_count inode + 1) % 2 ^ 32)
  pages : f'.pages ≡ f.pages

vfs_bind_fd-Bound :
    (fuel fd auth inode : ℕ) (t : FdTable) (f : Files)
    → fd < 8
    → Small fd t
    → (t' : FdTable) × (f' : Files) × (vfs_bind_fd fuel (pos fd) auth inode t f ≡ ok (some t', f'))
      × Bound fd auth inode t f t' f'
unfolding vfs_bind_fd bind_in
vfs_bind_fd-Bound fuel fd auth inode t f h s =
    let t₁ = skip_to (fd - t.fd_size) t in
    let k = skip_to-Small (fd - t.fd_size) t fd s.capacity (omega (arith, s.size)) in
    let c = level_bitmap_bit_clear-ok t₁.fd_size t₁.level_bitmap (omega (arith, k.0, h)) in
    (
      record t₁ {
        level_bitmap = c.1;
        fd_size = t₁.fd_size + 1;
        fds = set_at t₁.fds fd (record { inode = some inode; auth = auth });
      },
      record f { open_count = set_at f.open_count inode ((f.open_count inode + 1) % 2 ^ 32) },
      rw (below, c.2, lt→ltb fd 8 h) refl,
      record {
        small = record { size = omega (arith, k.0); capacity = k.1; own = k.3 ∙ s.own };
        entry = ap (λ g. set_at g fd (record { inode = some inode; auth = auth })) k.2;
        counts = refl;
        pages = refl;
      },
    )
  where
    below : leb t.fd_capacity fd ≡ false
    below = ground (arith, s.capacity)

-- What the entry e adds to the descriptor i.
record Taken (i : ℕ) (e : FdStruct) (t : FdTable) (f : Files) (t' : FdTable) (f' : Files)
    : Type 0 where
  small : Small (i + 1) t'
  here : t'.fds i ≡ (if inherits e then e else t.fds i)
  elsewhere : (j : ℕ) → j ≢ i → t'.fds j ≡ t.fds j
  counts :
      (y : ℕ)
      → f.open_count y < 2 ^ 32
      → f'.open_count y
        ≡ (f.open_count y
            + (if inherits e then elim e.inode [ none ↦ 0 | some inode ↦ one y inode ] else 0))
          % 2 ^ 32
  pages : f'.pages ≡ f.pages

counted :
    (count : ℕ → ℕ) (inode y : ℕ)
    → count y < 2 ^ 32
    → set_at count inode ((count inode + 1) % 2 ^ 32) y ≡ (count y + one y inode) % 2 ^ 32
counted count inode y h = elim (Bool-cases (y == inode)) [
  | inl q ↦ rw (q, ← ==→eq y inode q, one_self y) refl
  | inr q ↦ rw (q, one_ne y inode (==→ne y inode q)) (omega (arith, h))
]

-- A round of `fork_from`.
abbrev round : ℕ → FdStruct → ℕ → FdTable → Files → Run (Option FdTable × Files)
round fuel e i t f = elim e.inode [
  | none ↦ ok (some t, f)
  | some inode ↦
      if closes_on_fork e.auth == 0
      then vfs_bind_fd fuel (pos i) e.auth inode t f
      else ok (some t, f)
]

round-Taken :
    (fuel i : ℕ) (inode : Option ℕ) (auth : ℕ) (t : FdTable) (f : Files)
    → i < 8
    → Small i t
    → let e : FdStruct = record { inode = inode; auth = auth } in
      (t' : FdTable) × (f' : Files) × (round fuel e i t f ≡ ok (some t', f')) × Taken i e t f t' f'
round-Taken fuel i none auth t f h s = (
  t,
  f,
  refl,
  record {
    small = record { size = omega (arith, s.size); capacity = s.capacity; own = s.own };
    here = refl;
    elsewhere = λ j ne. refl;
    counts = λ y l. omega (arith, l);
    pages = refl;
  },
)
round-Taken fuel i (some inode) auth t f h s = elim (Bool-cases (closes_on_fork auth == 0)) [
  | inl q ↦
      let b = vfs_bind_fd-Bound fuel i auth inode t f h s in
      let k = b.3 in
      (
        b.0,
        b.1,
        rw q (b.2),
        record {
          small = k.small;
          here =
              ap (λ g. g i) k.entry
              ∙ set_at_self t.fds i (record { inode = some inode; auth = auth })
              ∙ rw q refl;
          elsewhere = λ j ne. ap (λ g. g j) k.entry ∙ set_at_ne t.fds i _ j ne;
          counts = λ y l. ap (λ g. g y) k.counts ∙ rw q (counted f.open_count inode y l);
          pages = k.pages;
        },
      )
  | inr q ↦ (
    t,
    f,
    rw q refl,
    record {
      small = record { size = omega (arith, s.size); capacity = s.capacity; own = s.own };
      here = rw q refl;
      elsewhere = λ j ne. refl;
      counts = λ y l. rw q (omega (arith, l));
      pages = refl;
    },
  )
]

-- What the rounds for `n` descriptors from i on leave.
pub record Inherited (entries : ℕ → FdStruct) (i n : ℕ) (t : FdTable) (f : Files) (t' : FdTable)
    (f' : Files) : Type 0 where
  pub small : Small (i + n) t'
  pub within :
      (j : ℕ) → i ≤ j → j < i + n → t'.fds j ≡ (if inherits (entries j) then entries j else t.fds j)
  pub below : (j : ℕ) → j < i → t'.fds j ≡ t.fds j
  pub behind : (j : ℕ) → i + n ≤ j → t'.fds j ≡ t.fds j
  pub counts :
      (y : ℕ)
      → f.open_count y < 2 ^ 32
      → f'.open_count y ≡ (f.open_count y + opened entries i n y) % 2 ^ 32
  pub pages : f'.pages ≡ f.pages

fork_from-Inherited :
    (n fuel : ℕ) (entries : ℕ → FdStruct) (i : ℕ) (t : FdTable) (f : Files)
    → i + n ≤ 8
    → Small i t
    → (t' : FdTable) × (f' : Files) × (fork_from fuel entries i n t f ≡ ok (some t', f'))
      × Inherited entries i n t f t' f'
unfolding fork_from opened
fork_from-Inherited zero fuel entries i t f h s = (
  t,
  f,
  refl,
  record {
    small = record { size = omega (arith, s.size); capacity = s.capacity; own = s.own };
    within = λ j a b. absurd (omega (arith, a, b));
    below = λ j a. refl;
    behind = λ j a. refl;
    counts = λ y l. omega (arith, l);
    pages = refl;
  },
)
fork_from-Inherited (suc n) fuel entries i t f h s =
    let r = round-Taken fuel i (entries i).inode (entries i).auth t f (omega (arith, h)) s in
    let next = fork_from-Inherited n fuel entries (i + 1) r.0 r.1 (omega (arith, h)) r.3.small in
    let k = next.3 in
    (
      next.0,
      next.1,
      rw (r.2) next.2,
      record {
        small = record {
          size = omega (arith, k.small.size);
          capacity = k.small.capacity;
          own = k.small.own;
        };
        within = λ j a b. elim (Bool-cases (j == i)) [
          | inl q ↦ rw (==→eq j i q) (k.below i (omega arith) ∙ r.3.here)
          | inr q ↦
              k.within j (omega (arith, a, ==→ne j i q)) (omega (arith, b))
              ∙ rw (r.3.elsewhere j (==→ne j i q)) refl
        ];
        below = λ j a. k.below j (omega (arith, a)) ∙ r.3.elsewhere j (λ e. omega (arith, a, e));
        behind = λ j a. k.behind j (omega (arith, a)) ∙ r.3.elsewhere j (λ e. omega (arith, a, e));
        counts = λ y l. let c = r.3.counts y l in omega (arith, c, k.counts y (omega (arith, c)));
        pages = k.pages ∙ r.3.pages;
      },
    )

-- For a process with at most 8 descriptors, fd_fork does not block and leaves a table of at most
-- as many descriptors, without pages of its own: each descriptor of the old process that has an
-- inode and is not closed on a fork is the same in the new one, every other one is blank, and the
-- count of each inode has grown by the number of descriptors that were inherited for it, modulo
-- 2^32.
pub fd_fork-Inherited :
    (fuel : ℕ) (dst src : FdTable) (f : Files)
    → src.fd_size ≤ 8
    → (t' : FdTable) × (f' : Files) × (fd_fork fuel dst src f ≡ ok (some t', f'))
      × (t'.fd_size ≤ src.fd_size)
      × (t'.fd_capacity ≡ 8)
      × (t'.fd_append ≡ 0)
      × ((j : ℕ) → j < src.fd_size → t'.fds j ≡ (if inherits (src.fds j) then src.fds j else blank))
      × ((j : ℕ) → src.fd_size ≤ j → t'.fds j ≡ blank)
      × ((y : ℕ)
          → f.open_count y < 2 ^ 32
          → f'.open_count y ≡ (f.open_count y + opened src.fds 0 src.fd_size y) % 2 ^ 32)
      × (f'.pages ≡ f.pages)
unfolding fd_fork init_fd_info fork_from
fd_fork-Inherited fuel dst src f h =
    let r =
      fork_from-Inherited src.fd_size fuel src.fds 0 (init_fd_info dst) f (omega (arith, h))
        (record { size = omega arith; capacity = refl; own = refl }) in
    let k = r.3 in
    (
      r.0,
      r.1,
      rw (le→ltb 8 src.fd_size h, r.2, none_left) refl,
      omega (arith, k.small.size),
      k.small.capacity,
      k.small.own,
      (λ j l. k.within j (omega arith) (omega (arith, l))),
      (λ j l. k.behind j (omega (arith, l))),
      k.counts,
      k.pages,
    )
  where
    none_left : src.fd_size - 8 ≡ 0
    none_left = omega (arith, h)
