-- ===== src/Vfs/Capacity.antt =====
-- A table of descriptors on pages of its own: the pages it gets, and the number of descriptors that
-- it is taken to hold.
use x_os_tmp.Base.{
  ℕ, ◌*◌, ◌%◌, ◌^◌, ◌<◌, ◌≤◌, ◌≡◌, ◌≢◌, refl, arith, List, [], ◌++◌, length, ok, some,
}
use x_os_tmp.Kernel.Lock.{CanLock}
use x_os_tmp.Memory.FreeList.{FreeInv}
use x_os_tmp.Buddy.Area.{each-at}
use x_os_tmp.Buddy.Blocks.{Blocks}
use x_os_tmp.Pages.Area.{PagesAt, get_pages-PagesAt}
use x_os_tmp.Vfs.Fds.{Append, Files, blank, vfs_estimate_capacity, fa_alloc_fd_info}

too_many : (pagesize : ℕ) → pagesize < 14 → 4096 * 2 ^ pagesize < vfs_estimate_capacity pagesize * 8
unfolding vfs_estimate_capacity
too_many pagesize h =
    each-at (λ n. 4096 * 2 ^ n < vfs_estimate_capacity n * 8) 14 0 pagesize
      (
        omega arith,
        (
          omega arith,
          (
            omega arith,
            (
              omega arith,
              (
                omega arith,
                (
                  omega arith,
                  (
                    omega arith,
                    (
                      omega arith,
                      (
                        omega arith,
                        (
                          omega arith,
                          (omega arith, (omega arith, (omega arith, (omega arith, tt)))),
                        ),
                      ),
                    ),
                  ),
                ),
              ),
            ),
          ),
        ),
      )
      (omega arith) (omega arith)

-- With well-formed free blocks, of which one of 2^pagesize pages or more is left, a page size up
-- to 13, a well-formed list of free pages that starts with as many, and room for one more lock,
-- fa_alloc_fd_info does not block and answers a table on an area of just 2^pagesize pages that
-- get_pages has taken, whose fd_capacity counts more descriptors of 8 bytes than the area has room
-- for.
pub fa_alloc_fd_info-too_many :
    (pagesize : ℕ) (used rest : List ℕ) (f : Files) (t : ℕ → List ℕ) (m : ℕ)
    → FreeInv f.pages.memory (used ++ rest)
    → CanLock f.pages.memory.kernel
    → length used ≡ 2 ^ pagesize
    → Blocks f.pages.buddy t
    → pagesize < 14
    → pagesize ≤ m
    → m < 15
    → t m ≢ []
    → (info : Append) × (f' : Files) × (fa_alloc_fd_info pagesize f ≡ ok (some info, f'))
      × PagesAt pagesize 1 3 used rest t info.fd_append f.pages f'.pages
      × (f'.open_count ≡ f.open_count)
      × (4096 * 2 ^ pagesize < info.fd_capacity * 8)
unfolding fa_alloc_fd_info
fa_alloc_fd_info-too_many n used rest f t m inv c enough blocks small hn hm full =
    let got = get_pages-PagesAt n 1 3 used rest f.pages t inv c enough m blocks hn hm full in
    (
      record {
        fd_pagesize = n % 2 ^ 16;
        fd_append = got.0;
        appended = λ i. blank;
        fd_capacity = vfs_estimate_capacity n;
        level_bitmap = record { bitmaps = λ i. 0; max_level = 4 };
      },
      record f { pages = got.1 },
      rw got.2 refl,
      got.3,
      refl,
      too_many n small,
    )
