-- ===== src/Pages/One.antt =====
-- `get_one_page`: a page that was free is mapped at an address that was free.
use x_os_tmp.Base.{
  ℕ, ◌+◌, ◌*◌, ◌%◌, ◌^◌, ◌<◌, ◌≡◌, ◌≢◌, refl, ap, Option, some, none, List, [], ◌∷◌, arith, ok,
  set_at, set_at_self, eq→==,
}
use x_os_tmp.Kernel.{lock_task}
use x_os_tmp.Kernel.Lock.{CanLock, released, unlock_task-ok, released-lock_task, lock_task-pos}
use x_os_tmp.Memory.{Memory, address, entry, mapping_page, get_physical_addr}
use x_os_tmp.Memory.FreeList.{FreeInv, Chain-frame, after, after-FreeInv, getonefreepage-after}
use x_os_tmp.Buddy.{Buddy, get_address_area}
use x_os_tmp.Buddy.Blocks.{Blocks}
use x_os_tmp.Buddy.Get.{Taken, Outcome, get_address_area-Outcome}
use x_os_tmp.Pages.{Pages, locked, get_one_page}

pub locked-FreeInv : (m : Memory) (xs : List ℕ) → FreeInv m xs → FreeInv (locked m) xs
unfolding lock_task
locked-FreeInv m xs i = record {
  chain = i.chain;
  distinct = i.distinct;
  counted = i.counted;
  small = i.small;
  nobody = i.nobody;
}

-- The page x of the free list stands at the address a, which has left the free blocks.
pub record PageAt (x a : ℕ) (xs : List ℕ) (t : ℕ → List ℕ) (s s' : Pages) : Type 0 where
  pub mapped : get_physical_addr a s'.memory ≡ x * 4096
  pub known : s'.memory.point x ≡ address a
  pub free : FreeInv s'.memory xs
  pub area : Taken 0 t a s'.buddy
  pub locks : (p : ℕ) → s'.memory.kernel.lock_count p ≡ s.memory.kernel.lock_count p

module _ (share flags x : ℕ) (xs : List ℕ) (s : Pages) (t : ℕ → List ℕ)
    (inv : FreeInv s.memory (x ∷ xs)) (c : CanLock s.memory.kernel) (small : x < 2 ^ 20) where
  abbrev page : Memory
  page = after (locked s.memory) x xs share flags (locked-FreeInv s.memory (x ∷ xs) inv)

  abbrev done : ℕ → Buddy → Pages
  done a b = record {
    memory = record page {
      kernel = released page.kernel;
      page_table = set_at page.page_table (entry a) (x * 4096 % 2 ^ 32 + 7);
      point = set_at page.point x (address a);
    };
    buddy = b;
  }

  done-PageAt : (a : ℕ) (b : Buddy) → Taken 0 t a b → PageAt x a xs t s (done a b)
  unfolding get_physical_addr lock_task
  done-PageAt a b k =
      let i =
        after-FreeInv (locked s.memory) x xs share flags (locked-FreeInv s.memory (x ∷ xs) inv) in
      record {
        mapped =
            rw (set_at_self page.page_table (entry a) (x * 4096 % 2 ^ 32 + 7))
              (omega (arith, small));
        known = set_at_self page.point x (address a);
        free = record {
          chain = Chain-frame page.point x (address a) page.free_head xs inv.distinct.0 i.chain;
          distinct = i.distinct;
          counted = i.counted;
          small = i.small;
          nobody = i.nobody;
        };
        area = k;
        locks = released-lock_task s.memory.kernel c;
      }

  get_one_page-run :
      (a : ℕ) (b : Buddy)
      → get_address_area 0 s.buddy ≡ (some a, b)
      → a % 4096 ≡ 0
      → get_one_page share flags s ≡ ok (some (a, x * 4096), done a b)
  unfolding get_one_page mapping_page
  get_one_page-run a b e h =
      rw
        (
          getonefreepage-after (locked s.memory) x xs share flags
              (locked-FreeInv s.memory (x ∷ xs) inv),
          e,
          h,
          eq→== (x * 4096 % 2 ^ 32 % 4096) 0 (omega arith),
          unlock_task-ok page.kernel (lock_task-pos s.memory.kernel c),
        )
        (ap (λ w. ok (some (a, w), done a b)) (omega (arith, small)))

  -- With a well-formed list of free pages whose head is a page below 2^20, well-formed free blocks
  -- of which one is left, and room for one more lock, get_one_page does not block and answers an
  -- address and the physical address of the head of the list: the page table leads from the one to
  -- the other, the descriptor holds the address, the free list is the rest, the page of the
  -- address has left the free blocks while every other page of the area is as free as before, and
  -- the locks are as before.
  pub get_one_page-PageAt :
      (m : ℕ)
      → Blocks s.buddy t
      → m < 15
      → t m ≢ []
      → (a : ℕ) × (s' : Pages) × (get_one_page share flags s ≡ ok (some (a, x * 4096), s'))
        × PageAt x a xs t s s'
  get_one_page-PageAt m blocks hm full =
      choose (get_address_area 0 s.buddy) refl
        (get_address_area-Outcome 0 s.buddy t (omega arith) blocks)
    where
      choose :
          (r : Option ℕ × Buddy)
          → get_address_area 0 s.buddy ≡ r
          → Outcome 0 s.buddy t r
          → (a : ℕ) × (s' : Pages) × (get_one_page share flags s ≡ ok (some (a, x * 4096), s'))
            × PageAt x a xs t s s'
      choose (none, b) e o = absurd (full (o.1 m (omega arith) hm))
      choose (some a, b) e k =
          (a, done a b, get_one_page-run a b e (omega (arith, k.at)), done-PageAt a b k)
