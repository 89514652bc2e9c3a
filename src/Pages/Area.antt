-- ===== src/Pages/Area.antt =====
-- `get_pages`: free pages from the front of the list are mapped one behind the other.
use x_os_tmp.Base.{
  ℕ, zero, suc, ◌+◌, ◌-◌, ◌*◌, ◌%◌, ◌^◌, ◌≤◌, ◌<◌, ◌≡◌, ◌≢◌, refl, sym, ap, ◌∙◌, Option, some, none,
  List, [], ◌∷◌, ◌++◌, length, arith, Fresh, ok, set_at, set_at_self, set_at_ne, eq→==, ne→==,
  All-append_left, ◌⊎◌, inl, inr,
}
use x_os_tmp.Kernel.{lock_task, add32}
use x_os_tmp.Kernel.Lock.{CanLock, released, unlock_task-ok, released-lock_task, lock_task-pos}
use x_os_tmp.Memory.{Memory, address, entry, kmem_start, mapping_page}
use x_os_tmp.Memory.FreeList.{FreeInv, Chain-frame, after, after-FreeInv, getonefreepage-after}
use x_os_tmp.Buddy.{Buddy, get_address_area}
use x_os_tmp.Buddy.Area.{each-at}
use x_os_tmp.Buddy.Blocks.{Blocks}
use x_os_tmp.Buddy.Get.{Taken, Outcome, get_address_area-Outcome}
use x_os_tmp.Pages.{Pages, locked, map_area, get_pages}
use x_os_tmp.Pages.One.{locked-FreeInv}

-- The page x stands at the entry e.
pub record PageOf (m : Memory) (share flags e x : ℕ) : Type 0 where
  pub maps : m.page_table e ≡ x * 4096 % 2 ^ 32 + 7
  pub known : m.point x ≡ address (kmem_start + e * 4096)
  pub shared : m.share x ≡ share
  pub flagged : m.flags x ≡ flags

abbrev pub MapsFrom : Memory → ℕ → ℕ → ℕ → List ℕ → Type 0
MapsFrom m share flags e [] = Unit
MapsFrom m share flags e (x ∷ xs) = PageOf m share flags e x × MapsFrom m share flags (e + 1) xs

-- The pages `used` stand from the entry e on, and the free list is the rest.
pub record AreaAt (share flags e : ℕ) (used rest : List ℕ) (m m' : Memory) : Type 0 where
  pub free : FreeInv m' rest
  pub mapped : MapsFrom m' share flags e used
  pub below : (i : ℕ) → i < e → m'.page_table i ≡ m.page_table i
  pub behind : (i : ℕ) → e + length used ≤ i → m'.page_table i ≡ m.page_table i
  pub others :
      (y : ℕ)
      → Fresh y used
      → (m'.point y ≡ m.point y) × (m'.share y ≡ m.share y) × (m'.flags y ≡ m.flags y)
  pub locks : m'.kernel.lock_count ≡ m.kernel.lock_count
  pub runs : m'.kernel.cur_process ≡ m.kernel.cur_process

-- The address of the entry e, from which `n` pages fit below 2^32.
abbrev pub Room : ℕ → ℕ → ℕ → Type 0
Room cp e zero = Unit
Room cp e (suc n) = (cp ≡ kmem_start + e * 4096) × (e + suc n ≤ 2 ^ 18)

Room-next : (cp e n : ℕ) → Room cp e (suc n) → Room (add32 cp 4096) (e + 1) n
Room-next cp e zero r = tt
Room-next cp e (suc n) r = (omega (arith, r.0, r.1), omega (arith, r.1))

module _ (share flags e x : ℕ) (xs : List ℕ) (m : Memory) (inv : FreeInv m (x ∷ xs)) where
  -- The memory after a round at the entry e.
  abbrev placed : Memory
  placed = record (after m x xs share flags inv) {
    page_table = set_at m.page_table e (x * 4096 % 2 ^ 32 + 7);
    point = set_at (after m x xs share flags inv).point x (address (kmem_start + e * 4096));
  }

  placed-FreeInv : FreeInv placed xs
  placed-FreeInv =
      let i = after-FreeInv m x xs share flags inv in
      record {
        chain =
            Chain-frame (after m x xs share flags inv).point x (address (kmem_start + e * 4096))
              (m.point x) xs inv.distinct.0 i.chain;
        distinct = i.distinct;
        counted = i.counted;
        small = i.small;
        nobody = i.nobody;
      }

  map_area-suc :
      (n cp : ℕ)
      → Room cp e (suc n)
      → map_area (suc n) share flags cp m ≡ map_area n share flags (add32 cp 4096) placed
  unfolding map_area mapping_page
  map_area-suc n cp r =
      rw
        (
          getonefreepage-after m x xs share flags inv,
          eq→== (cp % 4096) 0 (omega (arith, r.0)),
          eq→== (x * 4096 % 2 ^ 32 % 4096) 0 (omega arith),
          at_entry,
          r.0,
        )
        refl
    where
      at_entry : entry cp ≡ e
      at_entry = omega (arith, r.0, r.1)

map_area-AreaAt :
    (used rest : List ℕ) (share flags e cp : ℕ) (m : Memory)
    → FreeInv m (used ++ rest)
    → Room cp e (length used)
    → (end : ℕ) × (m' : Memory) × (map_area (length used) share flags cp m ≡ ok (some end, m'))
      × AreaAt share flags e used rest m m'
unfolding map_area
map_area-AreaAt [] rest share flags e cp m inv r = (
  cp,
  m,
  refl,
  record {
    free = inv;
    mapped = tt;
    below = λ i h. refl;
    behind = λ i h. refl;
    others = λ y f. (refl, refl, refl);
    locks = refl;
    runs = refl;
  },
)
map_area-AreaAt (x ∷ used) rest share flags e cp m inv r =
    let m₁ = placed share flags e x (used ++ rest) m inv in
    let next =
      map_area-AreaAt used rest share flags (e + 1) (add32 cp 4096) m₁
        (placed-FreeInv share flags e x (used ++ rest) m inv) (Room-next cp e (length used) r) in
    let g = next.3 in
    let fresh = All-append_left (λ q. q ≢ x) used rest inv.distinct.0 in
    let kept = g.others x fresh in
    (
      next.0,
      next.1,
      map_area-suc share flags e x (used ++ rest) m inv (length used) cp r ∙ next.2,
      record {
        free = g.free;
        mapped = (
          record {
            maps = g.below e (omega arith) ∙ set_at_self m.page_table e (x * 4096 % 2 ^ 32 + 7);
            known =
                kept.0
                ∙ set_at_self (after m x (used ++ rest) share flags inv).point x
                    (address (kmem_start + e * 4096));
            shared = kept.1 ∙ set_at_self m.share x share;
            flagged = kept.2 ∙ set_at_self m.flags x flags;
          },
          g.mapped,
        );
        below = λ i h.
            g.below i (omega (arith, h))
            ∙ set_at_ne m.page_table e (x * 4096 % 2 ^ 32 + 7) i (omega (arith, h));
        behind = λ i h.
            g.behind i (omega (arith, h))
            ∙ set_at_ne m.page_table e (x * 4096 % 2 ^ 32 + 7) i (omega (arith, h));
        others = λ y f.
            let o = g.others y f.1 in
            let ne : y ≢ x = λ w. f.0 (sym w) in
            (
              o.0 ∙ rw (ne→== y x ne) refl,
              o.1 ∙ set_at_ne m.share x share y ne,
              o.2 ∙ set_at_ne m.flags x flags y ne,
            );
        locks = g.locks;
        runs = g.runs;
      },
    )

Room-of : (cp e n : ℕ) → cp ≡ kmem_start + e * 4096 → e + n ≤ 2 ^ 18 → Room cp e n
Room-of cp e zero h k = tt
Room-of cp e (suc n) h k = (h, k)

-- The block p of the level n ends in the area.
abbrev Ends : ℕ → Type 0
Ends n = (p : ℕ) → p < 2 ^ (18 - n) → p * 2 ^ n + 2 ^ n ≤ 2 ^ 18

position-Ends : (n : ℕ) → n < 15 → Ends n
position-Ends n h =
    each-at Ends 15 0 n
      (
        λ p h. omega arith,
        (
          λ p h. omega arith,
          (
            λ p h. omega arith,
            (
              λ p h. omega arith,
              (
                λ p h. omega arith,
                (
                  λ p h. omega arith,
                  (
                    λ p h. omega arith,
                    (
                      λ p h. omega arith,
                      (
                        λ p h. omega arith,
                        (
                          λ p h. omega arith,
                          (
                            λ p h. omega arith,
                            (
                              λ p h. omega arith,
                              (λ p h. omega arith, (λ p h. omega arith, (λ p h. omega arith, tt))),
                            ),
                          ),
                        ),
                      ),
                    ),
                  ),
                ),
              ),
            ),
          ),
        ),
      )
      (omega arith) (omega arith)

-- The pages `used` stand at the area a of 2^n pages, which has left the free blocks.
pub record PagesAt (n share flags : ℕ) (used rest : List ℕ) (t : ℕ → List ℕ) (a : ℕ) (s s' : Pages)
    : Type 0 where
  pub area : Taken n t a s'.buddy
  pub free : FreeInv s'.memory rest
  pub mapped : MapsFrom s'.memory share flags (area.position * 2 ^ n) used
  pub elsewhere :
      (i : ℕ)
      → (i < area.position * 2 ^ n) ⊎ (area.position * 2 ^ n + 2 ^ n ≤ i)
      → s'.memory.page_table i ≡ s.memory.page_table i
  pub others :
      (y : ℕ)
      → Fresh y used
      → (s'.memory.point y ≡ s.memory.point y)
        × (s'.memory.share y ≡ s.memory.share y)
        × (s'.memory.flags y ≡ s.memory.flags y)
  pub locks : (p : ℕ) → s'.memory.kernel.lock_count p ≡ s.memory.kernel.lock_count p

pub released-FreeInv :
    (m : Memory) (xs : List ℕ) → FreeInv m xs → FreeInv (record m { kernel = released m.kernel }) xs
released-FreeInv m xs i = record {
  chain = i.chain;
  distinct = i.distinct;
  counted = i.counted;
  small = i.small;
  nobody = i.nobody;
}

released-MapsFrom :
    (m : Memory) (share flags e : ℕ) (xs : List ℕ)
    → MapsFrom m share flags e xs
    → MapsFrom (record m { kernel = released m.kernel }) share flags e xs
released-MapsFrom m share flags e [] h = tt
released-MapsFrom m share flags e (x ∷ xs) h = (
  record { maps = h.0.maps; known = h.0.known; shared = h.0.shared; flagged = h.0.flagged },
  released-MapsFrom m share flags (e + 1) xs h.1,
)

module _ (n share flags : ℕ) (used rest : List ℕ) (s : Pages) (t : ℕ → List ℕ)
    (inv : FreeInv s.memory (used ++ rest)) (c : CanLock s.memory.kernel)
    (enough : length used ≡ 2 ^ n) where
  finish :
      (a end : ℕ) (b : Buddy) (m : Memory)
      → get_address_area n s.buddy ≡ (some a, b)
      → (k : Taken n t a b) → map_area (2 ^ n) share flags a (locked s.memory) ≡ ok (some end, m)
      → AreaAt share flags (k.position * 2 ^ n) used rest (locked s.memory) m
      → (s' : Pages) × (get_pages n share flags s ≡ ok (some a, s'))
        × PagesAt n share flags used rest t a s s'
  unfolding get_pages lock_task
  finish a end b m e k r g = (
    record { memory = record m { kernel = released m.kernel }; buddy = b },
    rw (e, r, unlock_task-ok m.kernel held, e) refl,
    record {
      area = k;
      free = released-FreeInv m rest g.free;
      mapped = released-MapsFrom m share flags (k.position * 2 ^ n) used g.mapped;
      elsewhere =
          λ i w. elim w [ inl l ↦ g.below i l | inr l ↦ g.behind i (omega (arith, l, enough)) ];
      others = g.others;
      locks = λ p. rw (g.locks, g.runs) (released-lock_task s.memory.kernel c p);
    },
  )
    where
      held : 0 < m.kernel.lock_count m.kernel.cur_process
      held = rw (g.locks, g.runs) (lock_task-pos s.memory.kernel c)

  area_of :
      (a : ℕ) (b : Buddy)
      → n < 15
      → get_address_area n s.buddy ≡ (some a, b)
      → Taken n t a b
      → (s' : Pages) × (get_pages n share flags s ≡ ok (some a, s'))
        × PagesAt n share flags used rest t a s s'
  area_of a b h e k =
      let r =
        map_area-AreaAt used rest share flags (k.position * 2 ^ n) a (locked s.memory)
          (locked-FreeInv s.memory (used ++ rest) inv)
          (Room-of a (k.position * 2 ^ n) (length used) k.at
            (omega (arith, position-Ends n h k.position k.inside, enough))) in
      finish a r.0 b r.1 e k
        (ap (λ w. map_area w share flags a (locked s.memory)) (sym enough) ∙ r.2) r.3

  pub get_pages-PagesAt :
      (m : ℕ)
      → Blocks s.buddy t
      → n ≤ m
      → m < 15
      → t m ≢ []
      → (a : ℕ) × (s' : Pages) × (get_pages n share flags s ≡ ok (some a, s'))
        × PagesAt n share flags used rest t a s s'
  get_pages-PagesAt m blocks hn hm full =
      choose (get_address_area n s.buddy) refl
        (get_address_area-Outcome n s.buddy t (omega (arith, hn, hm)) blocks)
    where
      choose :
          (r : Option ℕ × Buddy)
          → get_address_area n s.buddy ≡ r
          → Outcome n s.buddy t r
          → (a : ℕ) × (s' : Pages) × (get_pages n share flags s ≡ ok (some a, s'))
            × PagesAt n share flags used rest t a s s'
      choose (none, b) e o = absurd (full (o.1 m hn hm))
      choose (some a, b) e k = let r = area_of a b (omega (arith, hn, hm)) e k in (a, r.0, r.1, r.2)
