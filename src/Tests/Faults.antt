-- ===== src/Tests/Faults.antt =====
-- Areas of pages, slots, page faults, descriptors and block buffers, at concrete inputs.
use x_os_tmp.Base.{
  ℕ, ◌+◌, ◌*◌, ◌^◌, ◌%◌, ◌<◌, ◌≤◌, ◌≡◌, ◌≢◌, refl, [], ◌∷◌, length, ◌==◌, if◌then◌else◌, arith,
  some, none, ok, panic, inl, pos,
}
use x_os_tmp.Memory.{Memory, null, desc, address, get_physical_addr}
use x_os_tmp.Memory.FreeList.{FreeInv}
use x_os_tmp.Pages.{Pages}
use x_os_tmp.Pages.Area.{PagesAt}
use x_os_tmp.Buddy.Init.{fresh_lists, init_buddy_module-Blocks}
use x_os_tmp.Slab.{Slab, tslab_malloc, tslab_free}
use x_os_tmp.Slab.Slots.{Listed, malloc_times, tslab_free-uncounted}
use x_os_tmp.Paging.{Paging, load_word, process_lack_page}
use x_os_tmp.Paging.Lack.{Walk, FilledAt, process_lack_page-FilledAt}
use x_os_tmp.Vfs.Fds.{FdTable, Files, blank, Append, fa_alloc_fd_info, fd_fork}
use x_os_tmp.Vfs.Fork.{inherits, opened, fd_fork-Inherited}
use x_os_tmp.Vfs.Capacity.{fa_alloc_fd_info-too_many}
use x_os_tmp.BlockDriver.{BlockDriver, repeat, block_driver_get_max_write}
use x_os_tmp.BlockBuffer.{Buffers, flush_block_buffer}
use x_os_tmp.BlockBuffer.Flush.{flush_block_buffer-panics}
use x_os_tmp.RbTree.{black}
use x_os_tmp.Tests.Areas.{zeroed, fresh}
use x_os_tmp.Tests.Devices.{one_page}
use x_os_tmp.Tests.Kernels.{no-Rings, idle, links5, rows5, rings5}

-- The pages 7 and 8 are free, and the whole area but its ends.
abbrev two_pages : Memory
two_pages = record one_page {
  kernel = record idle { surplus = λ s. 2 };
  point = λ i. if i == 7 then desc 8 else null;
}

two_pages-FreeInv : FreeInv two_pages (7 ∷ 8 ∷ [])
two_pages-FreeInv = record {
  chain = (refl, (refl, refl));
  distinct = ((omega arith, tt), (tt, tt));
  counted = refl;
  small = omega arith;
  nobody = (no-Rings 1).ring 0 (omega arith);
}

abbrev machine : Pages
machine = record { memory = two_pages; buddy = fresh }

-- No slot of any size; a page has 127 slots of 32 bytes.
abbrev no_slots : Slab
no_slots = record {
  pages = machine;
  alloc_count = λ p. 0;
  page_next = λ p. 0;
  page_pre = λ p. 0;
  slot_next = λ p. 0;
  page_descs = 0xc0200000;
  free_page_head = λ n. 0xc0200000;
  free_slab_head = λ n. 0;
  page_count = λ n. 0;
  free_slab_count = λ n. 0;
  slab_capacity = λ n. 127;
}

-- One slot of 16 bytes is free, and two are in use.
abbrev one_slot : Slab
one_slot = record no_slots {
  free_slab_head = λ n. 0xc400000c;
  free_slab_count = λ n. 1;
  alloc_count = λ p. 2;
}

one_slot-Listed : Listed 0 one_slot (0xc400000c ∷ []) 1
one_slot-Listed = record { chain = (refl, (λ e. omega arith), refl); kept = refl }

tslab_free-uncounted_example :
    (s₁ : Slab) × (tslab_free 1 0xc400001c 16 one_slot ≡ ok s₁)
    × Listed 0 s₁ (0xc400001c ∷ 0xc400000c ∷ []) 1
    × (s₂ : Slab) × (malloc_times 1 16 s₁ ≡ ok s₂)
    × (s₂.free_slab_head 0 ≢ 0)
    × (tslab_malloc 16 s₂ ≡ panic)
tslab_free-uncounted_example =
    tslab_free-uncounted 0 16 0xc400001c 1 0 (0xc400000c ∷ []) one_slot refl refl one_slot-Listed
      (λ e. omega arith) ((λ e. omega arith), tt) refl

-- The catalog is the page 512, and its first entry leads to the page 513, at 0xc0101000.
abbrev mapped : Memory
mapped = record one_page {
  kernel = record idle { surplus = λ s. 1; lock_count = λ p. 0 };
  point = λ i. if i == 513 then address 0xc0101000 else null;
  page_table = λ i. if i == 256 then 0x200003 else if i == 257 then 0x201003 else 0;
}

mapped-FreeInv : FreeInv mapped (7 ∷ [])
mapped-FreeInv = record {
  chain = (refl, refl);
  distinct = (tt, tt);
  counted = refl;
  small = omega arith;
  nobody = (no-Rings 1).ring 0 (omega arith);
}

abbrev process : Paging
process = record {
  pages = record { memory = mapped; buddy = fresh };
  words = λ p i. if p == 512 then 0x201007 else 0;
  catalog = 0xc0100000;
  image_end = 0xc0300000;
}

process-Walk : Walk 0x1234 0xc0101000 process
unfolding load_word get_physical_addr
process-Walk = record { present = refl; known = refl; stands = refl; apart = λ e. omega (arith, e) }

process_lack_page-FilledAt_example :
    (s' : Paging) × (process_lack_page 0 0x1234 process ≡ ok (some tt, s'))
    × FilledAt 0x1234 0xc0101000 7 [] process s'
unfolding get_physical_addr
process_lack_page-FilledAt_example =
    process_lack_page-FilledAt 0x1234 0xc0101000 7 [] process process-Walk mapped-FreeInv
      (omega arith) (λ e. omega (arith, e)) (λ e. omega (arith, e)) 0 refl (omega arith) refl
      (λ e. (omega arith, omega arith))

-- The descriptors 0 and 1 are open; the second one is closed on a fork.
abbrev table : FdTable
table = record {
  fd_pagesize = 0;
  fds = λ i.
      if i == 0
      then record { inode = some 5; auth = 2 }
      else if i == 1
      then record { inode = some 5; auth = 0x12 }
      else blank;
  fd_append = 0;
  appended = λ i. blank;
  fd_size = 2;
  fd_capacity = 8;
  level_bitmap = record { bitmaps = λ i. 0xfc; max_level = 0 };
}

abbrev files : Files
files = record { pages = machine; open_count = λ i. 2 }

fd_fork-Inherited_example :
    (t' : FdTable) × (f' : Files) × (fd_fork 1 table table files ≡ ok (some t', f'))
    × (t'.fd_size ≤ 2)
    × (t'.fd_capacity ≡ 8)
    × (t'.fd_append ≡ 0)
    × ((j : ℕ) → j < 2 → t'.fds j ≡ (if inherits (table.fds j) then table.fds j else blank))
    × ((j : ℕ) → 2 ≤ j → t'.fds j ≡ blank)
    × ((y : ℕ) → 2 < 2 ^ 32 → f'.open_count y ≡ (2 + opened table.fds 0 2 y) % 2 ^ 32)
    × (f'.pages ≡ machine)
fd_fork-Inherited_example = fd_fork-Inherited 1 table table files (omega arith)

fa_alloc_fd_info-too_many_example :
    (info : Append) × (f' : Files) × (fa_alloc_fd_info 1 files ≡ ok (some info, f'))
    × PagesAt 1 1 3 (7 ∷ 8 ∷ []) [] fresh_lists info.fd_append machine f'.pages
    × (f'.open_count ≡ files.open_count)
    × (4096 * 2 ^ 1 < info.fd_capacity * 8)
fa_alloc_fd_info-too_many_example =
    fa_alloc_fd_info-too_many 1 (7 ∷ 8 ∷ []) [] files fresh_lists 14 two_pages-FreeInv (omega arith)
      refl (init_buddy_module-Blocks zeroed) (omega arith) (omega arith) (omega arith) (λ e. cc)

-- Three descriptors, with pages of its own for the entries from 8 on.
abbrev three_files : FdTable
three_files = record {
  fd_pagesize = 1;
  fds = λ i. blank;
  fd_append = 0xc0300000;
  appended = λ i. blank;
  fd_size = 3;
  fd_capacity = 2000;
  level_bitmap = record { bitmaps = λ i. 0; max_level = 4 };
}

-- The buffer 5 is dirty, on the list of the dirty ones.
abbrev disk : BlockDriver ℕ
disk = record {
  read_blocks = none;
  write_blocks = some (λ start count timeout w. (pos 0, w + count));
  max_read = 8;
  max_write = 8;
}

abbrev buffers : Buffers ℕ
buffers = record {
  memory = one_page;
  nodes = record { color = λ p. black; parent = λ p. 0; child = λ d p. 0 };
  lists = links5 2;
  main_driver = λ p. 3;
  sub_driver = λ p. 0;
  block_no = λ p. p;
  buffer = λ p. p;
  op_time = λ p. 0;
  used_count = λ p. 0;
  flags = λ p. 5;
  drivers = repeat 32 (some disk);
  world = 0;
}

max_write : block_driver_get_max_write buffers.drivers 3 ≡ ok 8
unfolding block_driver_get_max_write
max_write = refl

flush_block_buffer-panics_example : flush_block_buffer 2 5 (pos 0) buffers ≡ panic
flush_block_buffer-panics_example =
    flush_block_buffer-panics 1 5 8 (pos 0) buffers (rows5 2)
      (record { rings = rings5 3 2 (omega arith); short = short }) refl refl (inl refl) max_write
  where
    short : (i : ℕ) → i < 3 → length (rows5 2 i) < 2
    short i h = ground arith
