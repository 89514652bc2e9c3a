-- ===== src/Slab/Cut.antt =====
-- A new page is cut into slots: what `tslab_malloc` does when the list of its size is empty.
use x_os_tmp.Base.{ℕ, zero, suc, ◌+◌, ◌-◌, ◌*◌, ◌/◌, ◌<◌, ◌≤◌, ◌≡◌, ◌≢◌, List, [], ◌∷◌, All}
use x_os_tmp.Buddy.Blocks.{Blocks}
use x_os_tmp.Pages.{Pages}
use x_os_tmp.Pages.Area.{PagesAt}
use x_os_tmp.Slab.{Slab, page_start_pos}
use x_os_tmp.Slab.Slots.{Listed}

-- The addresses of `n` slots from `head` on.
abbrev pub slots : ℕ → ℕ → ℕ → List ℕ
slots zero head size = []
slots (suc n) head size = head ∷ slots n (head + size) size

-- The size number k, and how many slots of it a page has.
abbrev Capacity : ℕ → Type 0
Capacity k =
    let size = (k + 1) * 16 in
    let capacity = (4096 - 12) / size in
    (0 < capacity)
    × (capacity < 4096)
    × (12 + capacity * size < 4096)
    × (4096 ≤ 12 + capacity * size + size)

-- The page is all slots of the size number n.
record Filled (n pdesc c size : ℕ) (s s' : Slab) : Type 0 where
  listed : Listed n s' (slots (suc c) (pdesc + 12) size) (suc c)
  unused : s'.alloc_count pdesc ≡ 0
  others :
      (m : ℕ)
      → m ≢ n
      → (s'.free_slab_head m ≡ s.free_slab_head m) × (s'.free_slab_count m ≡ s.free_slab_count m)
  same : s'.pages ≡ s.pages

-- What `tslab_malloc` leaves of a new page: the first slot is handed out.
pub record NewPage (n pdesc c size x : ℕ) (xs : List ℕ) (t : ℕ → List ℕ) (s s' : Slab)
    : Type 0 where
  pub listed : Listed n s' (slots c (pdesc + 12 + size) size) c
  pub within : All (λ y. page_start_pos y ≡ pdesc) (slots (suc c) (pdesc + 12) size)
  pub used : s'.alloc_count pdesc ≡ 1
  pub others :
      (m : ℕ)
      → m ≢ n
      → (s'.free_slab_head m ≡ s.free_slab_head m) × (s'.free_slab_count m ≡ s.free_slab_count m)
  pub page : PagesAt 0 1 7 (x ∷ []) xs t pdesc s.pages s'.pages

module _ (k c x : ℕ) (xs : List ℕ) (t : ℕ → List ℕ) (s : Slab) (small : k < 8)
    (capacity : (4096 - 12) / ((k + 1) * 16) ≡ suc c) where
  abbrev size : ℕ
  size = (k + 1) * 16
