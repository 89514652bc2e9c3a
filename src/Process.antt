-- ===== src/Process.antt =====
-- `sys_fork` and `pid_alloc` of src/sched.c, with `schedulecpy` of src/sched.s: a new process.
-- The number of a new process is the address of its pages, and a pointer to a process is its
-- number, with 0 for NULL. What a call prints and the state of the floating-point unit are left
-- out. A `none` is a caller that blocks in `get_pages` or `get_one_page`.
pub mod Start
pub mod Copy
use Prim.Native.Nat.{bit_or}
use x_os_tmp.Base.{
  ℕ, ◌+◌, ◌-◌, ◌/◌, ◌%◌, ◌^◌, ◌==◌, if◌then◌else◌, Option, none, some, Run, ok, ◌>>=◌, ◌>>◌,
  kassert, set_at,
}
use x_os_tmp.CircularList.{head, node, Links}
use x_os_tmp.Kernel.{Kernel, add32, sub32, lock_task, unlock_task}
use x_os_tmp.Memory.{mem_flags_p, mem_flags_k, mem_flags_t}
use x_os_tmp.Memory.Fork.{Fork, mem_fork}
use x_os_tmp.Pages.{get_pages, get_one_page}
use x_os_tmp.Sched.{in_sched_queue, schedule}
use x_os_tmp.Vfs.Fds.{FdTable, Files, fd_fork}

-- The fields of `struct process_info_t` that the kernel of the scheduler does not have, and
-- `_last_pid`; `files` holds the pages with the kernel.
pub record Machine : Type 0 where
  pub files : Files
  pub fd_info : ℕ → FdTable
  pub pid : ℕ → ℕ
  pub parent : ℕ → ℕ
  pub brother : ℕ → ℕ
  pub son : ℕ → ℕ
  pub esp : ℕ → ℕ
  pub catalog_table_v : ℕ → ℕ
  pub catalog_table_p : ℕ → ℕ
  -- the words of the page at `catalog_table_v` of a process
  pub catalog : ℕ → ℕ → ℕ
  pub last_pid : ℕ

abbrev pub kernel_of : Machine → Kernel
kernel_of m = m.files.pages.memory.kernel

abbrev pub with_kernel : Kernel → Machine → Machine
with_kernel k m =
    let pages = m.files.pages in
    record m {
      files = record m.files {
        pages = record pages { memory = record pages.memory { kernel = k } };
      };
    }

unfoldable pub pid_alloc : Machine → ℕ × Machine
pid_alloc m = let pid = add32 m.last_pid 1 in (pid, record m { last_pid = pid })

-- A field, and the links of a node, after the copy.
abbrev pub copied {ℓ} : {A : Type ℓ} → ℕ → ℕ → (ℕ → A) → ℕ → A
copied new old f = set_at f new (f old)

abbrev pub copied_links : ℕ → ℕ → Links → Links
copied_links new old l = record {
  next =
      λ r. elim r [ head i ↦ l.next (head i) | node p ↦ copied new old (λ z. l.next (node z)) p ];
  pre = λ r. elim r [ head i ↦ l.pre (head i) | node p ↦ copied new old (λ z. l.pre (node z)) p ];
}

abbrev pub copied_kernel : ℕ → ℕ → Kernel → Kernel
copied_kernel new old k = record k {
  nice = copied new old k.nice;
  state = copied new old k.state;
  sched_queue = copied new old k.sched_queue;
  lock_count = copied new old k.lock_count;
  rest_time = copied new old k.rest_time;
  wakeup_jiffies = copied new old k.wakeup_jiffies;
  demand = copied new old k.demand;
  last_errno = copied new old k.last_errno;
  sub_errno = copied new old k.sub_errno;
  sched_links = copied_links new old k.sched_links;
  sleep_links = copied_links new old k.sleep_links;
  wait_links = copied_links new old k.wait_links;
}

-- `schedulecpy`, called with the stack pointer `esp`: both pages of the process are copied.
unfoldable pub schedulecpy : ℕ → ℕ → Machine → Machine
schedulecpy esp new m =
    let k = kernel_of m in
    let old = k.cur_process in
    let saved = set_at m.esp old esp in
    with_kernel (copied_kernel new old k) (record m {
      fd_info = copied new old m.fd_info;
      pid = copied new old m.pid;
      parent = copied new old m.parent;
      brother = copied new old m.brother;
      son = copied new old m.son;
      esp = copied new old saved;
      catalog_table_v = copied new old m.catalog_table_v;
      catalog_table_p = copied new old m.catalog_table_p;
    })

-- The part of `sys_fork` up to the `unlock_task` behind `schedulecpy`.
unfoldable pub copy_process : ℕ → ℕ → Machine → Run Machine
unfolding schedulecpy
copy_process esp new m = do
  let k₁ = lock_task (kernel_of m)
  kassert (k₁.lock_count k₁.cur_process == 1)
  let m₂ = schedulecpy esp new (with_kernel k₁ m)
  let k₂ = kernel_of m₂
  kassert (k₂.lock_count k₂.cur_process == 1)
  k₃ ← unlock_task k₂
  ok (with_kernel k₃ m₂)

-- The assignments to the new process, whose stack starts at its page; `stack_end` is the page of
-- the old one.
unfoldable pub adopt : ℕ → ℕ → Machine → Machine
unfolding pid_alloc
adopt stack_end new m =
    let k = kernel_of m in
    let cur = k.cur_process in
    let esp = sub32 (add32 new (sub32 (m.esp cur) stack_end)) 4 in
    let (pid, m₁) = pid_alloc (record m { esp = set_at m.esp new esp }) in
    let m₂ = record m₁ {
      pid = set_at m₁.pid new pid;
      parent = set_at m₁.parent new cur;
      brother = set_at m₁.brother new (m₁.son cur);
      son = set_at m₁.son new 0;
    } in
    with_kernel
      (record k { rest_time = set_at k.rest_time new (k.rest_time cur - k.rest_time cur / 2) }) m₂

-- The whole of `mem_fork`.
unfoldable pub fork_memory : ℕ → Machine → Run (Option Machine)
fork_memory new m = do
  let old = (kernel_of m).cur_process
  (got, pages) ← get_one_page 1 (bit_or (bit_or mem_flags_p mem_flags_k) mem_flags_t) m.files.pages
  let m₁ = record m { files = record m.files { pages = pages } }
  elim got [
    | none ↦ ok none
    | some at ↦ (do
      let memory = pages.memory
      f ← mem_fork (record {
        kernel = memory.kernel;
        share = memory.share;
        flags = memory.flags;
        src = m.catalog old;
        dst = λ i. 0;
      })
      let memory₁ = record memory { kernel = f.kernel; share = f.share; flags = f.flags }
      ok (
          some (record m₁ {
            files = record m₁.files { pages = record pages { memory = memory₁ } };
            catalog_table_v = set_at m₁.catalog_table_v new at.0;
            catalog_table_p = set_at m₁.catalog_table_p new at.1;
            catalog = set_at (set_at m₁.catalog old f.src) new f.dst;
          })))
  ]

-- The last part of `sys_fork`: the time is shared, and the new process is put on its level.
unfoldable pub start_process : ℕ → Machine → Run Machine
start_process new m = do
  let k₁ = lock_task (kernel_of m)
  let cur = k₁.cur_process
  let half = k₁.rest_time cur / 2
  let k₂ = record k₁ { rest_time = set_at k₁.rest_time cur (if half == 0 then 1 else half) }
  k₃ ← in_sched_queue new k₂
  k₄ ← unlock_task k₃
  k₅ ← schedule k₄
  ok (with_kernel k₅ (record m { son = set_at m.son cur new }))

-- `sys_fork` of a process whose pages start at `stack_end`; `mem_fork` and `fd_fork` never answer a
-- negative number. The answer is that of the old process; the new one goes on in `_ret_zero`.
unfoldable pub sys_fork : ℕ → ℕ → ℕ → Machine → Run (Option (ℕ × Machine))
unfolding copy_process adopt fork_memory start_process
sys_fork fuel esp stack_end m = do
  (got, pages) ← get_pages 1 1 (bit_or mem_flags_p mem_flags_k) m.files.pages
  let m₀ = record m { files = record m.files { pages = pages } }
  elim got [
    | none ↦ ok none
    | some new ↦ (do
      m₁ ← copy_process esp new m₀
      let m₂ = adopt stack_end new m₁
      memory ← fork_memory new m₂
      elim memory [
        | none ↦ ok none
        | some m₃ ↦ (do
          let old = (kernel_of m₃).cur_process
          (table, files) ← fd_fork fuel (m₃.fd_info new) (m₃.fd_info old) m₃.files
          elim table [
            | none ↦ ok none
            | some t ↦ (do
              let m₄ = record m₃ { files = files; fd_info = set_at m₃.fd_info new t }
              m₅ ← start_process new m₄
              ok (some (m₅.pid new, m₅)))
          ])
      ])
  ]
