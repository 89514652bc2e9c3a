-- ===== src/Memory/FreeList.antt =====
-- The free list and its semaphore: as long as nobody waits for a page, the semaphore counts the
-- descriptors on the list, and each operation of mem.c keeps it so.
use x_os_tmp.Base.{
  ℕ, zero, suc, ◌+◌, ◌-◌, ◌*◌, ◌%◌, ◌^◌, ◌<◌, ◌≡◌, ◌≢◌, refl, sym, ◌∙◌, ap, List, [], ◌∷◌, length,
  arith, Fresh, Distinct, eq→==, ne→==, some, ok, set_at, set_at_self, set_at_ne, ℤ, pos, negsuc,
  inl,
}
use x_os_tmp.CircularList.Seg.{Ring}
use x_os_tmp.Kernel.{Kernel, add32}
use x_os_tmp.Semaphore.{returns, ksemaphore_down}
use x_os_tmp.Semaphore.Down.{ksemaphore_down-at_once}
use x_os_tmp.Memory.{
  Memory, Point, null, desc, mem_semaphore, ushrt_max, take_head, getonefreepage,
  getonefreepage_unblocking, count_free, get_free_mem_size,
}

-- The descriptors from `p` on, each leading to the next.
abbrev pub Chain : (ℕ → Point) → Point → List ℕ → Type 0
Chain point p [] = p ≡ null
Chain point p (x ∷ xs) = (p ≡ desc x) × Chain point (point x) xs

pub record FreeInv (m : Memory) (xs : List ℕ) : Type 0 where
  pub chain : Chain m.point m.free_head xs
  pub distinct : Distinct xs
  pub counted : m.kernel.surplus mem_semaphore ≡ length xs
  pub small : length xs < 2 ^ 32
  pub nobody : Ring m.kernel.wait_links mem_semaphore []

pub Chain-frame :
    (f : ℕ → Point) (x : ℕ) (v p : Point) (ys : List ℕ)
    → Fresh x ys
    → Chain f p ys
    → Chain (set_at f x v) p ys
Chain-frame f x v p [] h c = c
Chain-frame f x v p (y ∷ ys) h c = (c.0, rw (ne→== y x h.0) (Chain-frame f x v (f y) ys h.1 c.1))

-- The semaphore after a grant, and after a return of one unit.
abbrev granted : Kernel → Kernel
granted k = record k { surplus = set_at k.surplus mem_semaphore (k.surplus mem_semaphore - 1) }

down-grants :
    (timeout : ℤ) (k : Kernel) (n : ℕ)
    → Ring k.wait_links mem_semaphore []
    → k.surplus mem_semaphore ≡ suc n
    → suc n < 2 ^ 32
    → ksemaphore_down mem_semaphore 1 timeout k ≡ ok (returns (pos 1), granted k)
down-grants timeout k n r s b =
    ksemaphore_down-at_once mem_semaphore 1 timeout [] k r (rw s b) (inl (rw s (ground arith)))
    ∙ rw s (ground arith)

-- What a page is when it has been handed out.
pub record Taken (x share flags : ℕ) (m m' : Memory) : Type 0 where
  pub active : m'.active x ≡ ushrt_max
  pub shared : m'.share x ≡ share
  pub flagged : m'.flags x ≡ flags
  pub alone : m'.point x ≡ null
  pub unnoted : m'.unused x ≡ 0
  pub others :
      (y : ℕ)
      → y ≢ x
      → (m'.share y ≡ m.share y)
        × (m'.flags y ≡ m.flags y)
        × (m'.active y ≡ m.active y)
        × (m'.unused y ≡ m.unused y)
        × (m'.point y ≡ m.point y)
  pub table : m'.page_table ≡ m.page_table

module _ (m : Memory) (x : ℕ) (xs : List ℕ) (share flags : ℕ) (inv : FreeInv m (x ∷ xs)) where
  abbrev pub after : Memory
  after = record m {
    kernel = granted m.kernel;
    active = set_at m.active x ushrt_max;
    share = set_at m.share x share;
    flags = set_at m.flags x flags;
    unused = set_at m.unused x 0;
    free_head = m.point x;
    point = set_at m.point x null;
  }

  pub after-FreeInv : FreeInv after xs
  after-FreeInv = record {
    chain = Chain-frame m.point x null (m.point x) xs inv.distinct.0 inv.chain.1;
    distinct = inv.distinct.1;
    counted = set_at_self m.kernel.surplus mem_semaphore _ ∙ rw (inv.counted) (omega arith);
    small = omega (arith, inv.small);
    nobody = inv.nobody;
  }

  after-Taken : Taken x share flags m after
  after-Taken = record {
    active = set_at_self m.active x ushrt_max;
    shared = set_at_self m.share x share;
    flagged = set_at_self m.flags x flags;
    alone = set_at_self m.point x null;
    unnoted = set_at_self m.unused x 0;
    others = λ y ne. (
      set_at_ne m.share x share y ne,
      set_at_ne m.flags x flags y ne,
      set_at_ne m.active x ushrt_max y ne,
      set_at_ne m.unused x 0 y ne,
      set_at_ne m.point x null y ne,
    );
    table = refl;
  }

  pub getonefreepage-after : getonefreepage share flags m ≡ ok (some x, after)
  unfolding getonefreepage take_head
  getonefreepage-after =
      rw (down-grants (pos 0) m.kernel (length xs) inv.nobody inv.counted inv.small, inv.chain.0)
        refl

  pub getonefreepage_unblocking-after : getonefreepage_unblocking share flags m ≡ ok (some x, after)
  unfolding getonefreepage_unblocking take_head
  getonefreepage_unblocking-after =
      rw (inv.chain.0, down-grants (negsuc 0) m.kernel (length xs) inv.nobody inv.counted inv.small)
        refl

  -- On a well-formed free list with a page, getonefreepage and getonefreepage_unblocking both hand
  -- out the head of the list, marked in use with the share and the flags asked for and noted
  -- nowhere else, leave the other descriptors and the page table as they were, and keep the
  -- semaphore equal to the length of the list.
  pub getonefreepage-takes :
      (m' : Memory) × (getonefreepage share flags m ≡ ok (some x, m'))
      × (getonefreepage_unblocking share flags m ≡ ok (some x, m'))
      × FreeInv m' xs
      × Taken x share flags m m'
  unfolding getonefreepage getonefreepage_unblocking take_head
  getonefreepage-takes = (
    after,
    rw (down-grants (pos 0) m.kernel (length xs) inv.nobody inv.counted inv.small, inv.chain.0)
        refl,
    rw (inv.chain.0, down-grants (negsuc 0) m.kernel (length xs) inv.nobody inv.counted inv.small)
        refl,
    after-FreeInv,
    after-Taken,
  )

count_free-Chain :
    (f fc : ℕ) (p : Point) (m : Memory) (xs : List ℕ)
    → length xs < f
    → fc + length xs < 2 ^ 32
    → Chain m.point p xs
    → count_free f fc p m ≡ ok (fc + length xs)
unfolding count_free
count_free-Chain zero fc p m xs h b c = absurd (omega arith)
count_free-Chain (suc f) fc p m [] h b c = rw c (ap ok (omega arith))
count_free-Chain (suc f) fc p m (x ∷ xs) h b c = rw (c.0) (
    count_free-Chain f (add32 fc 1) (m.point x) m xs (omega arith) (omega arith) c.1
    ∙ ap ok (omega arith))

-- On a well-formed free list, with fuel above its length, the kassert of get_free_mem_size holds
-- and the answer is the number of free bytes modulo 2^32.
pub get_free_mem_size-counts :
    (f : ℕ) (m : Memory) (xs : List ℕ)
    → FreeInv m xs
    → length xs < f
    → get_free_mem_size f m ≡ ok (length xs * 4096 % 2 ^ 32)
unfolding get_free_mem_size
get_free_mem_size-counts f m xs inv h =
    rw
      (
        count_free-Chain f 0 m.free_head m xs h (omega (arith, inv.small)) inv.chain,
        sum,
        eq→== _ _ (sym inv.counted),
      )
      refl
  where
    sum : 0 + length xs ≡ length xs
    sum = omega arith
