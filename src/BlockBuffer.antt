-- ===== src/BlockBuffer.antt =====
-- src/block_buffer.c and inc/block_buffer.h: the buffers of blocks, found by a red-black tree, each
-- on the list of the free, of the synchronised or of the dirty ones.
-- A `struct block_buffer_desc_t` is a number, its address, and 0 is NULL; its fields are functions
-- of that number. `driver_type` is the word of the two drivers. Where the source reads through
-- NULL, the processor faults. `circular_list_is_inlist` answers 0 for a node that it finds.
pub mod Flush
use Prim.Native.Nat.{bit_and, bit_or}
use x_os_tmp.Base.{
  ℕ, zero, suc, ◌+◌, ◌-◌, ◌*◌, ◌/◌, ◌%◌, ◌^◌, ◌==◌, ◌&&◌, ◌||◌, Bool, true, false, not, ltb, leb,
  if◌then◌else◌, Option, none, some, Run, ok, panic, out_of_fuel, ◌>>=◌, ◌>>◌, kassert, set_at, ℤ,
  pos, negsuc,
}
use x_os_tmp.CircularList.{
  Ref, head, node, Links, circular_list_init, circular_list_insert, circular_list_remove,
  circular_list_is_inlist, circular_list_is_empty,
}
use x_os_tmp.Kernel.{Kernel, sub32, add32, long_lt}
use x_os_tmp.Sched.{parentof}
use x_os_tmp.Semaphore.{
  Call, returns, blocks, ksemaphore_init, ksemaphore_down, ksemaphore_down_resumed, is_negative,
}
use x_os_tmp.Cond.{kcond_init}
use x_os_tmp.Memory.{Memory, kgetpersistedpage, kgetpersistedmem}
use x_os_tmp.BlockDriver.{Drivers, block_driver_write_blocks, block_driver_get_max_write}
use x_os_tmp.RbTree.{Nodes, rb_tree_init}
use x_os_tmp.RbTree.Keyed.{blkbuffer_rb_tree_find, blkbuffer_rb_tree_insert, blkbuffer_rb_tree_next}
use x_os_tmp.RbTree.Removal.{rb_tree_remove}

-- `enum BLKBUFFER_FLAGS`
abbrev pub blkbuffer_flag_inqueue : ℕ
blkbuffer_flag_inqueue = 1

abbrev pub blkbuffer_flag_unsync : ℕ
blkbuffer_flag_unsync = 2

abbrev pub blkbuffer_flag_dirty : ℕ
blkbuffer_flag_dirty = 4

abbrev pub blkbuffer_flag_lock : ℕ
blkbuffer_flag_lock = 16

abbrev pub blkbuffer_flag_flushing : ℕ
blkbuffer_flag_flushing = 64

abbrev pub blkbuffer_blkcount : ℕ
blkbuffer_blkcount = 8192

abbrev pub blkbuffer_blksize : ℕ
blkbuffer_blksize = 4096

-- The numbers of `blank_buffer`, of the head of the tree, of the three lists and of the semaphore.
abbrev pub tree_head : ℕ
tree_head = 1

abbrev pub blank_buffer : ℕ
blank_buffer = 2

abbrev pub free_list : ℕ
free_list = 0

abbrev pub sync_list : ℕ
sync_list = 1

abbrev pub dirty_list : ℕ
dirty_list = 2

abbrev pub inlist_sem : ℕ
inlist_sem = 1

module _ (W : Type 0) where
  -- The manager, the fields of the buffers, and what their operations use.
  pub record Buffers : Type 0 where
    pub memory : Memory
    pub nodes : Nodes
    pub lists : Links
    pub main_driver : ℕ → ℕ
    pub sub_driver : ℕ → ℕ
    pub block_no : ℕ → ℕ
    pub buffer : ℕ → ℕ
    pub op_time : ℕ → ℕ
    pub used_count : ℕ → ℕ
    pub flags : ℕ → ℕ
    pub drivers : Drivers W
    pub world : W

-- A bit of the flags.
abbrev pub has : ℕ → ℕ → Bool
has flag flags = not (bit_and flags flag == 0)

module _ {W : Type 0} where
  abbrev pub driver_type : Buffers W → ℕ → ℕ
  driver_type b p = b.sub_driver p + b.main_driver p * 2 ^ 16

  -- The truth value of the answer of `circular_list_is_inlist`, -1 for a node that is not found.
  unfoldable pub answers_nonzero : ℕ → ℕ → ℕ → Buffers W → Run Bool
  answers_nonzero fuel list p b = elim (circular_list_is_inlist fuel (head list) (node p) b.lists) [
    | none ↦ out_of_fuel
    | some found ↦ ok (not found)
  ]

  abbrev next_buffer : ℕ → ℕ → Buffers W → Run (Option ℕ)
  next_buffer fuel p b = blkbuffer_rb_tree_next fuel tree_head p b.nodes

  -- A buffer is taken off its list, as the first part of a round of the loop does.
  unfoldable pub take_off : ℕ → ℕ → Buffers W → Run (ℕ × Buffers W)
  take_off fuel end b = do
    let queued = (do
      free ← answers_nonzero fuel free_list end b
      sync ← answers_nonzero fuel sync_list end b
      dirty ← answers_nonzero fuel dirty_list end b
      kassert (free || sync || dirty)
      ok (
        1,
        record b {
          lists = circular_list_remove (node end) b.lists;
          flags = set_at b.flags end (b.flags end - 1);
        },
      ))
    if has blkbuffer_flag_inqueue (b.flags end) then queued else ok (0, b)

  -- The last three `kassert`s of the round, and the flags that it sets.
  unfoldable pub mark_flushing : ℕ → ℕ → Buffers W → Run (Buffers W)
  unfolding answers_nonzero
  mark_flushing fuel end b = do
    free ← answers_nonzero fuel free_list end b
    kassert (not free)
    sync ← answers_nonzero fuel sync_list end b
    kassert (not sync)
    dirty ← answers_nonzero fuel dirty_list end b
    kassert (not dirty)
    ok (record b {
      flags = set_at b.flags end (bit_or blkbuffer_flag_flushing blkbuffer_flag_lock);
    })

  -- `do { ... } while(...)`: the numbers of the buffers and of those that were on a list.
  unfoldable pub collect : ℕ → ℕ → ℕ → ℕ → ℕ → Buffers W → Run (ℕ × ℕ × Buffers W)
  unfolding take_off mark_flushing
  collect zero max_len end len rml_count b = out_of_fuel
  collect (suc f) max_len end len rml_count b = do
    (removed, b₁) ← take_off (suc f) end b
    b₂ ← mark_flushing (suc f) end b₁
    following ← next_buffer (suc f) end b₂
    next ← elim following [ none ↦ panic | some next ↦ ok next ]
    let rest = collect f max_len next (len + 1) (rml_count + removed) b₂
    let adjoins =
        driver_type b₂ end == driver_type b₂ next && (add32 (b₂.block_no end) 1 == b₂.block_no next)
    let dirty =
        has blkbuffer_flag_dirty (b₂.flags end) && not (has blkbuffer_flag_lock (b₂.flags end))
    let done = ok (len + 1, rml_count + removed, b₂)
    if adjoins && dirty && ltb (len + 1) max_len then rest else done

  -- A written buffer goes back to a list: to the dirty ones when the driver failed or when it has
  -- become dirty.
  unfoldable pub put_back : Bool → ℕ → Buffers W → Run (Buffers W)
  put_back failed end b = do
    kassert (has blkbuffer_flag_flushing (b.flags end))
    kassert (has blkbuffer_flag_lock (b.flags end))
    kassert (not (has blkbuffer_flag_inqueue (b.flags end)))
    let back = λ (list flags : ℕ). record b {
      lists = circular_list_insert (head list) (node end) b.lists;
      flags = set_at b.flags end flags;
    }
    let dirty = ok (back dirty_list (bit_or blkbuffer_flag_dirty blkbuffer_flag_inqueue))
    let synced = ok (back sync_list blkbuffer_flag_inqueue)
    if failed || has blkbuffer_flag_dirty (b.flags end) then dirty else synced

  -- The loops behind the call of the driver, for `n` buffers from `end` on; the answer is the
  -- buffer behind them.
  unfoldable pub settle : ℕ → Bool → ℕ → ℕ → Buffers W → Run (Option ℕ × Buffers W)
  unfolding put_back
  settle fuel failed zero end b = ok (some end, b)
  settle fuel failed (suc n) end b = do
    b₁ ← put_back failed end b
    following ← next_buffer fuel end b₁
    let more = (do
      next ← elim following [ none ↦ panic | some next ↦ ok next ]
      kassert (
          (driver_type b₁ end == driver_type b₁ next)
          && (add32 (b₁.block_no end) 1 == b₁.block_no next))
      settle fuel failed n next b₁)
    if n == 0 then ok (following, b₁) else more

  unfoldable pub flush_block_buffer : ℕ → ℕ → ℤ → Buffers W → Run (Option ℕ × Buffers W)
  unfolding collect settle
  flush_block_buffer fuel start timeout b = do
    kassert (has blkbuffer_flag_dirty (b.flags start))
    kassert (not (has blkbuffer_flag_lock (b.flags start)))
    max_len ← block_driver_get_max_write b.drivers (b.main_driver start)
    (len, rml_count, b₁) ← collect fuel max_len start 0 0 b
    (res, k) ← ksemaphore_down inlist_sem rml_count (negsuc 0) b₁.memory.kernel
    kassert (elim res [ returns v ↦ not (is_negative v) | blocks ↦ false ])
    (written, w) ← block_driver_write_blocks b₁.main_driver b₁.drivers start len timeout b₁.world
    (end, b₂) ←
        settle fuel (is_negative written) len start
          (record b₁ { memory = record b₁.memory { kernel = k }; world = w })
    ok (if is_negative written then none else end, b₂)

  -- The rounds of `block_buffer_module_init`, `n` of them, with the next part of the memory.
  unfoldable pub add_buffers : ℕ → ℕ → ℕ → Buffers W → Run (Buffers W)
  add_buffers fuel zero buffer_head b = ok b
  add_buffers fuel (suc n) buffer_head b = do
    (p, m) ← kgetpersistedmem fuel 56 b.memory
    add_buffers fuel n (add32 buffer_head blkbuffer_blksize) (record b {
      memory = record m { kernel = kcond_init p m.kernel };
      lists = circular_list_insert (head free_list) (node p) b.lists;
      main_driver = set_at b.main_driver p 0;
      sub_driver = set_at b.sub_driver p 0;
      block_no = set_at b.block_no p 0;
      buffer = set_at b.buffer p buffer_head;
      op_time = set_at b.op_time p 0;
      used_count = set_at b.used_count p 0;
      flags = set_at b.flags p blkbuffer_flag_inqueue;
    })

  unfoldable pub block_buffer_module_init : ℕ → Buffers W → Run (Buffers W)
  unfolding add_buffers
  block_buffer_module_init fuel b = do
    let k = ksemaphore_init inlist_sem blkbuffer_blkcount b.memory.kernel
    let l₁ = circular_list_init (head free_list) b.lists
    let l₂ = circular_list_init (head dirty_list) (circular_list_init (head sync_list) l₁)
    (buffer_head, _, m) ←
        kgetpersistedpage (blkbuffer_blkcount / (4096 / blkbuffer_blksize))
          (record b.memory { kernel = k })
    add_buffers fuel blkbuffer_blkcount buffer_head (record b {
      memory = m;
      nodes = rb_tree_init tree_head blank_buffer b.nodes;
      lists = l₂;
      main_driver = set_at b.main_driver blank_buffer 0;
      sub_driver = set_at b.sub_driver blank_buffer 0;
      block_no = set_at b.block_no blank_buffer 0;
      flags = set_at b.flags blank_buffer 0;
    })

  -- The first of the synchronised buffers becomes a free one.
  unfoldable pub reclaim : ℕ → Buffers W → Run (Buffers W)
  reclaim fuel b = do
    kassert (not (circular_list_is_empty (head sync_list) b.lists))
    let tmp = parentof (b.lists.next (head sync_list))
    nodes ← rb_tree_remove fuel tree_head tmp b.nodes
    ok (record b {
      nodes = nodes;
      flags = set_at b.flags tmp (bit_or blkbuffer_flag_unsync blkbuffer_flag_inqueue);
      lists =
          circular_list_insert (head free_list) (node tmp)
            (circular_list_remove (node tmp) b.lists);
    })

  -- A free list that is empty gets a buffer; `false` where the source answers NULL. The timeout that
  -- is computed anew behind the flush is not read again.
  unfoldable pub make_free : ℕ → ℤ → Buffers W → Run (Bool × Buffers W)
  unfolding flush_block_buffer reclaim
  make_free fuel timeout b = do
    let flushed = (do
      kassert (not (circular_list_is_empty (head dirty_list) b.lists))
      (end, b₁) ← flush_block_buffer fuel (parentof (b.lists.next (head dirty_list))) timeout b
      elim end [ none ↦ ok (false, b₁) | some _ ↦ (do b₂ ← reclaim fuel b₁; ok (true, b₂)) ])
    let reclaimed = (do b₁ ← reclaim fuel b; ok (true, b₁))
    let refill = if circular_list_is_empty (head sync_list) b.lists then flushed else reclaimed
    if circular_list_is_empty (head free_list) b.lists then refill else ok (true, b)

  -- The end of `get_block_buffer`.
  abbrev touch : ℕ → Buffers W → Buffers W
  touch p b = record b {
    op_time = set_at b.op_time p b.memory.kernel.jiffies;
    used_count = set_at b.used_count p ((b.used_count p + 1) % 2 ^ 32);
  }

  -- A buffer of the free list for a block; it is the head of the list that is removed.
  unfoldable pub take_free : ℕ → ℕ → ℕ → ℕ → Buffers W → Run (ℕ × Buffers W)
  take_free fuel main sub number b = do
    let p = parentof (b.lists.next (head free_list))
    let b₁ : Buffers W = record b {
      lists = circular_list_remove (head free_list) b.lists;
      flags = set_at b.flags p blkbuffer_flag_unsync;
      main_driver = set_at b.main_driver p main;
      sub_driver = set_at b.sub_driver p sub;
      block_no = set_at b.block_no p number;
    }
    nodes ← blkbuffer_rb_tree_insert fuel (driver_type b₁) b₁.block_no tree_head p b₁.nodes
    ok (p, touch p (record b₁ { nodes = nodes }))

  -- `get_block_buffer` behind a granted unit of the semaphore.
  unfoldable pub fetch : ℕ → ℕ → ℕ → ℕ → ℤ → Buffers W → Run (Option ℕ × Buffers W)
  unfolding make_free take_free
  fetch fuel main sub number timeout b = do
    (free, b₁) ← make_free fuel timeout b
    let taken = (do (p, b₂) ← take_free fuel main sub number b₁; ok (some p, b₂))
    if free then taken else ok (none, b₁)

  -- The outer `none` is a caller that blocks, the inner one NULL.
  unfoldable pub get_block_buffer :
      ℕ → ℕ → ℕ → ℕ → ℤ → Buffers W → Run (Option (Option ℕ) × Buffers W)
  unfolding fetch
  get_block_buffer fuel main sub number timeout b = do
    found ← blkbuffer_rb_tree_find fuel (driver_type b) b.block_no tree_head main sub number b.nodes
    elim found [
      | some p ↦ ok (some (some p), touch p b)
      | none ↦ (do
        (call, k) ← ksemaphore_down inlist_sem 1 timeout b.memory.kernel
        let b₁ = record b { memory = record b.memory { kernel = k } }
        elim call [
          | blocks ↦ ok (none, b₁)
          | returns (negsuc n) ↦ ok (some none, b₁)
          | returns (pos n) ↦ (do
            (got, b₂) ← (if n == 1 then fetch fuel main sub number timeout b₁ else ok (none, b₁))
            ok (some got, b₂))
        ])
    ]

  -- What a caller that has blocked does when it goes on.
  unfoldable pub get_block_buffer_resumed :
      ℕ → ℕ → ℕ → ℕ → ℤ → Buffers W → Run (Option ℕ × Buffers W)
  unfolding fetch
  get_block_buffer_resumed fuel main sub number timeout b =
      let (answer, k) = ksemaphore_down_resumed 1 b.memory.kernel in
      let b₁ = record b { memory = record b.memory { kernel = k } } in
      let fetched = fetch fuel main sub number timeout b₁ in
      if is_negative answer then ok (none, b₁) else fetched

  unfoldable pub release_block_buffer : ℕ → Buffers W → Run (Buffers W)
  release_block_buffer p b = do
    let left = sub32 (b.used_count p) 1
    let b₁ = record b { used_count = set_at b.used_count p left }
    let list = if has blkbuffer_flag_dirty (b.flags p) then dirty_list else sync_list
    let put = (do
      kassert (not (has blkbuffer_flag_unsync (b.flags p)))
      ok (record b₁ { lists = circular_list_insert (head list) (node p) b.lists }))
    if left == 0 then put else ok b₁
