-- ===== src/Paging/Lack.antt =====
-- `process_lack_page` for an address whose page table stands: a free page is mapped and filled.
use x_os_tmp.Base.{
  ℕ, ◌+◌, ◌-◌, ◌*◌, ◌/◌, ◌%◌, ◌^◌, ◌<◌, ◌≡◌, ◌≢◌, refl, sym, ap, ◌∙◌, ◌==◌, ◌&&◌, ltb,
  if◌then◌else◌, Bool-cases, inl, inr, true, false, some, List, ◌∷◌, arith, ok, set_at, set_at_self,
  set_at_ne, eq→==, ne→==, lt→ltb, le→ltb, Bool,
}
use x_os_tmp.Kernel.{Kernel, lock_task, unlock_task, add32}
use x_os_tmp.Kernel.Lock.{CanLock, released, unlock_task-ok, released-lock_task, lock_task-pos}
use x_os_tmp.Memory.{Memory, address, kmem_start, getonefreepage, get_physical_addr}
use x_os_tmp.Memory.FreeList.{FreeInv, after, after-FreeInv, getonefreepage-after}
use x_os_tmp.Pages.{locked}
use x_os_tmp.Pages.One.{locked-FreeInv}
use x_os_tmp.Pages.Area.{released-FreeInv}
use x_os_tmp.Buddy.{set_in}
use x_os_tmp.Paging.{
  Paging, load_word, store_word, user_page, kernel_page, catalog_index, table_index, with_memory,
  with_kernel, copy_page, table_for, load_program, image_page, place_page, fill_page,
  process_lack_page,
}

-- The tables of the address a: its entry in the catalog leads to a page that stands at v.
pub record Walk (a v : ℕ) (s : Paging) : Type 0 where
  pub present : load_word s.catalog (catalog_index a) s % 2 ≡ 1
  pub known : s.pages.memory.point (load_word s.catalog (catalog_index a) s / 2 ^ 12) ≡ address v
  pub stands : kernel_page v s ≡ load_word s.catalog (catalog_index a) s / 2 ^ 12
  pub apart : kernel_page s.catalog s ≢ kernel_page v s

-- The user's addresses that stay as they are.
abbrev pub stays : ℕ → Bool
stays target = ltb 0xa0000000 target && ltb target 0xc0000000

-- The page x has been mapped at the address a and filled.
pub record FilledAt (a v x : ℕ) (xs : List ℕ) (s s' : Paging) : Type 0 where
  pub mapped : user_page a s' ≡ x
  pub filled : s'.words x ≡ (
      if stays (a - a % 2 ^ 12)
      then s.words x
      else s'.words (kernel_page (add32 (a - a % 2 ^ 12) 0xc0000000) s))
  pub others : (y : ℕ) → y ≢ x → y ≢ kernel_page v s → s'.words y ≡ s.words y
  pub entries :
      (i : ℕ) → i ≢ table_index a → s'.words (kernel_page v s) i ≡ s.words (kernel_page v s) i
  pub shared : s'.pages.memory.share x ≡ 1
  pub free : FreeInv s'.pages.memory xs
  pub locks : (p : ℕ) → s'.pages.memory.kernel.lock_count p ≡ s.pages.memory.kernel.lock_count p

lock_task-once :
    (k : Kernel)
    → k.lock_count k.cur_process ≡ 0
    → (lock_task k).lock_count (lock_task k).cur_process ≡ 1
unfolding lock_task
lock_task-once k l =
    set_at_self k.lock_count k.cur_process (add32 (k.lock_count k.cur_process) 1) ∙ rw l refl

-- The steps of `process_lack_page`, each with its outcome.
table_step :
    (e_code a v : ℕ) (s : Paging)
    → (e_code % 2 == 1) ≡ false
    → ltb a kmem_start ≡ true
    → table_for a s ≡ ok (some v, s)
    → process_lack_page e_code a s ≡ fill_page a v s
unfolding process_lack_page
table_step e_code a v s c lo t = rw (c, lo, t) refl

fill_step :
    (a v x : ℕ) (s : Paging) (m : Memory)
    → (let k = lock_task s.pages.memory.kernel in k.lock_count k.cur_process == 1) ≡ true
    → getonefreepage 1 1 (locked s.pages.memory) ≡ ok (some x, m)
    → fill_page a v s ≡ place_page a v x (with_memory m s)
unfolding fill_page
fill_step a v x s m l g = rw (l, g) refl

place_step :
    (a v x : ℕ) (s s' : Paging) (k : Kernel)
    → load_program (a - a % 2 ^ 12) (store_word v (table_index a) (x * 4096 % 2 ^ 32 + 7) s)
      ≡ ok (0, s')
    → unlock_task s'.pages.memory.kernel ≡ ok k
    → place_page a v x s ≡ ok (some tt, with_kernel k s')
unfolding place_page
place_step a v x s s' k h u = rw (h, u) refl

-- A walk over two levels, of which the lower one has a new entry.
walk_of :
    (words : ℕ → ℕ → ℕ) (c t i j e : ℕ)
    → c ≢ t
    → words c i / 2 ^ 12 ≡ t
    → set_in words t j e (set_in words t j e c i / 2 ^ 12) j ≡ e
walk_of words c t i j e h k = rw (ne→== c t h, k, eq→== t t refl, eq→== j j refl) refl

walk_copied :
    (words : ℕ → ℕ → ℕ) (c t x i j e : ℕ) (content : ℕ → ℕ)
    → c ≢ t
    → c ≢ x
    → t ≢ x
    → words c i / 2 ^ 12 ≡ t
    → (let f = set_in words t j e in set_at f x content (set_at f x content c i / 2 ^ 12) j)
      ≡ (let f = set_in words t j e in f (f c i / 2 ^ 12) j)
walk_copied words c t x i j e content h k l w = rw (ne→== c x k, ne→== c t h, w, ne→== t x l) refl

-- The page x, copied from the page y, holds what y holds.
copied_from : (f : ℕ → ℕ → ℕ) (x y : ℕ) → set_at f x (f y) x ≡ set_at f x (f y) y
copied_from f x y = elim (Bool-cases (y == x)) [
  | inl e ↦ rw (e, eq→== x x refl) refl
  | inr e ↦ rw (e, eq→== x x refl) refl
]

module _ (a v x : ℕ) (xs : List ℕ) (s : Paging) (w : Walk a v s)
    (inv : FreeInv s.pages.memory (x ∷ xs)) (small : x < 2 ^ 20) (no_table : x ≢ kernel_page v s)
    (no_catalog : x ≢ kernel_page s.catalog s) where
  abbrev target : ℕ
  target = a - a % 2 ^ 12

  abbrev page : Memory
  page = after (locked s.pages.memory) x xs 1 1 (locked-FreeInv s.pages.memory (x ∷ xs) inv)

  -- The page is in the table.
  abbrev entered : Paging
  entered = store_word v (table_index a) (x * 4096 % 2 ^ 32 + 7) (with_memory page s)

  walks : user_page target entered ≡ x
  unfolding user_page load_word store_word get_physical_addr
  walks =
      rw (catalog_same, table_same)
        (ap (λ z. z / 2 ^ 12)
            (walk_of s.words (kernel_page s.catalog s) (kernel_page v s) (catalog_index a)
              (table_index a) (x * 4096 % 2 ^ 32 + 7) w.apart (sym w.stands))
          ∙ omega (arith, small))
    where
      catalog_same : catalog_index target ≡ catalog_index a
      catalog_same = omega arith

      table_same : table_index target ≡ table_index a
      table_same = omega arith

  -- Behind `load_program`, whose branch is `b`.
  abbrev filled_by : Bool → Paging
  filled_by b = if b then entered else copy_page x (kernel_page (add32 target 0xc0000000) s) entered

  abbrev done : Bool → Paging
  done b = with_kernel (released page.kernel) (filled_by b)

  load-run :
      (b : Bool)
      → stays target ≡ b
      → (b ≡ false → (target < 0x40000000) × (add32 target 0xc0000000 < s.image_end))
      → load_program target entered ≡ ok (0, filled_by b)
  unfolding load_program image_page get_physical_addr store_word
  load-run true e h = rw e refl
  load-run false e h =
      rw
        (
          e,
          lt→ltb (add32 target 0xc0000000) s.image_end (h refl).1,
          le→ltb (add32 target 0xc0000000) kmem_start (omega (arith, (h refl).0)),
          walks,
        )
        refl

  table-run : table_for a s ≡ ok (some v, s)
  unfolding table_for
  table-run = rw (ne→== _ 0 present, w.known) refl
    where
      present : load_word s.catalog (catalog_index a) s % 2 ≢ 0
      present z = absurd (omega (arith, w.present, z))

  run :
      (e_code : ℕ) (b : Bool)
      → e_code % 2 ≡ 0
      → a < kmem_start
      → s.pages.memory.kernel.lock_count s.pages.memory.kernel.cur_process ≡ 0
      → stays target ≡ b
      → (b ≡ false → (target < 0x40000000) × (add32 target 0xc0000000 < s.image_end))
      → process_lack_page e_code a s ≡ ok (some tt, done b)
  unfolding store_word
  run e_code b c lo l e h =
      table_step e_code a v s (ne→== (e_code % 2) 1 (λ z. omega (arith, c, z)))
        (lt→ltb a kmem_start lo) table-run
      ∙ fill_step a v x s page once (
          getonefreepage-after (locked s.pages.memory) x xs 1 1
            (locked-FreeInv s.pages.memory (x ∷ xs) inv))
      ∙ place_step a v x (with_memory page s) (filled_by b) (released page.kernel) (load-run b e h)
          (unlocks b)
    where
      k : Kernel
      k = s.pages.memory.kernel

      once : ((lock_task k).lock_count (lock_task k).cur_process == 1) ≡ true
      once = eq→== _ 1 (lock_task-once k l)

      unlocks :
          (b : Bool) → unlock_task (filled_by b).pages.memory.kernel ≡ ok (released page.kernel)
      unlocks true = unlock_task-ok page.kernel (lock_task-pos k (omega (arith, l)))
      unlocks false = unlock_task-ok page.kernel (lock_task-pos k (omega (arith, l)))

  -- What stands in the pages.
  entered-others : (y : ℕ) → y ≢ kernel_page v s → entered.words y ≡ s.words y
  unfolding store_word get_physical_addr
  entered-others y ne = set_at_ne s.words (kernel_page v s) _ y ne

  entered-entries :
      (i : ℕ) → i ≢ table_index a → entered.words (kernel_page v s) i ≡ s.words (kernel_page v s) i
  unfolding store_word get_physical_addr
  entered-entries i ne =
      ap (λ f. f i) (set_at_self s.words (kernel_page v s) _)
      ∙ set_at_ne (s.words (kernel_page v s)) (table_index a) _ i ne

  entered_walk : user_page a (done true) ≡ x
  unfolding user_page load_word store_word get_physical_addr
  entered_walk =
      ap (λ z. z / 2 ^ 12)
        (walk_of s.words (kernel_page s.catalog s) (kernel_page v s) (catalog_index a)
          (table_index a) (x * 4096 % 2 ^ 32 + 7) w.apart (sym w.stands))
      ∙ omega (arith, small)

  -- The same walk when the page x alone has changed.
  copied_walk : user_page a (done false) ≡ user_page a (done true)
  unfolding user_page load_word store_word get_physical_addr
  copied_walk =
      ap (λ z. z / 2 ^ 12)
        (walk_copied s.words (kernel_page s.catalog s) (kernel_page v s) x (catalog_index a)
          (table_index a) (x * 4096 % 2 ^ 32 + 7)
          (entered.words (kernel_page (add32 target 0xc0000000) s)) w.apart
          (λ z. no_catalog (sym z)) (λ z. no_table (sym z)) (sym w.stands))

  page-FreeInv : FreeInv (record page { kernel = released page.kernel }) xs
  page-FreeInv =
      released-FreeInv page xs (
        after-FreeInv (locked s.pages.memory) x xs 1 1 (locked-FreeInv s.pages.memory (x ∷ xs) inv))

  done-FilledAt :
      (b : Bool) → stays target ≡ b → CanLock s.pages.memory.kernel → FilledAt a v x xs s (done b)
  unfolding store_word
  done-FilledAt true e c = record {
    mapped = entered_walk;
    filled = rw e (entered-others x no_table);
    others = λ y nx nt. entered-others y nt;
    entries = entered-entries;
    shared = set_at_self s.pages.memory.share x 1;
    free = page-FreeInv;
    locks = released-lock_task s.pages.memory.kernel c;
  }
  done-FilledAt false e c = record {
    mapped = copied_walk ∙ entered_walk;
    filled = rw e (copied_from entered.words x (kernel_page (add32 target 0xc0000000) s));
    others = λ y nx nt. set_at_ne entered.words x _ y nx ∙ entered-others y nt;
    entries = λ i ne.
        ap (λ f. f i) (set_at_ne entered.words x _ (kernel_page v s) (λ z. no_table (sym z)))
        ∙ entered-entries i ne;
    shared = set_at_self s.pages.memory.share x 1;
    free = page-FreeInv;
    locks = released-lock_task s.pages.memory.kernel c;
  }

  -- A fault without the bit of presence, at an address below KMEM_START whose page table is
  -- present and stands at an address of the kernel, with no lock held and a well-formed list of
  -- free pages whose head is below 2^20 and neither a table of the address nor its catalog, where
  -- the page of the address, unless it is one of those that the code keeps, lies below 0x40000000
  -- and its source begins before the end of the image: process_lack_page ends with the locks as
  -- they were. The address leads to the head of the list, with the share 1. For a page from
  -- 0xa0001000 on it is as it was, else a copy of the page of the image 0xc0000000 above. Every
  -- other page, every other entry of the table and the rest of the list are as they were.
  pub process_lack_page-FilledAt :
      (e_code : ℕ)
      → e_code % 2 ≡ 0
      → a < kmem_start
      → s.pages.memory.kernel.lock_count s.pages.memory.kernel.cur_process ≡ 0
      → (stays target ≡ false → (target < 0x40000000) × (add32 target 0xc0000000 < s.image_end))
      → (s' : Paging) × (process_lack_page e_code a s ≡ ok (some tt, s')) × FilledAt a v x xs s s'
  process_lack_page-FilledAt e_code c lo l h = (
    done (stays target),
    run e_code (stays target) c lo l refl h,
    done-FilledAt (stays target) refl (omega (arith, l)),
  )
