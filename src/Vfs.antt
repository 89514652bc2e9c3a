-- ===== src/Vfs.antt =====
-- src/vfs.c and inc/vfs.h: the table of file system drivers, the dispatch to them, and the calls on
-- file descriptors.
-- What a driver does is no part of this file: a driver is a parameter, functions on a world `W`
-- of their own and on the `last_errno` of the caller.
pub mod Register
pub mod Access
pub mod Fds
pub mod Capacity
pub mod Fork
pub mod Lookup
use x_os_tmp.Base.{
  ℕ, zero, suc, ◌+◌, ◌-◌, ◌*◌, ◌/◌, ◌%◌, ◌^◌, Bool, true, false, List, ◌==◌, ltb, leb, ◌||◌,
  if◌then◌else◌, Option, some, none, Run, ok, panic, out_of_fuel, ◌>>=◌, set_at, get_elem?, if_null,
  ℤ, pos, negsuc,
}

abbrev pub eperm : ℕ
eperm = 1

abbrev pub enxio : ℕ
enxio = 6

abbrev pub enomem : ℕ
enomem = 12

-- `MEM_START`
abbrev pub mem_start : ℕ
mem_start = 0xc0000000

module _ (W : Type 0) where
  -- `cur_process->last_errno`, and all that the drivers keep.
  pub record Env : Type 0 where
    pub last_errno : ℕ
    pub world : W

  -- A call of a driver, on the number of an inode, an address and a length.
  abbrev pub Handler : Type 0
  Handler = ℕ → ℕ → ℕ → Env → ℤ × Env

  -- `open_child` answers the number of an inode, or none for NULL.
  abbrev pub Opener : Type 0
  Opener = ℕ → ℕ → ℕ → Env → Option ℕ × Env

  -- `struct vfs_desc_t`, with none for NULL.
  pub record Driver : Type 0 where
    pub open_child : Option Opener
    pub read : Option Handler
    pub write : Option Handler
    pub fsync : Option (ℕ → Env → ℤ × Env)

  -- `vfs_desc_points`, and `inode->main_driver` of each inode.
  pub record Vfs : Type 0 where
    pub drivers : ℕ → Option Driver
    pub main_driver : ℕ → ℕ

abbrev pub or_default : {A : Type 0} → Option A → A → Option A
or_default none d = some d
or_default (some f) d = some f

module _ {W : Type 0} where
  abbrev pub fail : ℕ → Env W → ℤ × Env W
  fail e env = (negsuc 0, record env { last_errno = e })

  pub default_open_child : Opener W
  default_open_child inode path len env = (none, record env { last_errno = eperm })

  pub default_read : Handler W
  default_read inode buf len env = fail eperm env

  pub default_write : Handler W
  default_write inode buf len env = fail eperm env

  pub default_fsync : ℕ → Env W → ℤ × Env W
  default_fsync inode env = (pos 0, env)

  -- The driver as `vfs_register` completes it in place.
  unfoldable pub completed : Driver W → Driver W
  unfolding default_open_child default_read default_write default_fsync
  completed d = record {
    open_child = or_default d.open_child default_open_child;
    read = or_default d.read default_read;
    write = or_default d.write default_write;
    fsync = or_default d.fsync default_fsync;
  }

  unfoldable pub vfs_register : Option (Driver W) → ℕ → Vfs W → ℤ × Vfs W
  vfs_register vfs num v =
      if_null vfs (negsuc 0, v)
        (λ d.
          if_null (v.drivers num)
            (pos 0, record v { drivers = set_at v.drivers num (some (completed d)) })
            (λ _. (negsuc 0, v)))

  unfoldable pub vfs_open_child : Vfs W → ℕ → ℕ → ℕ → Env W → Option ℕ × Env W
  vfs_open_child v inode path len env =
      if_null (v.drivers (v.main_driver inode)) (none, record env { last_errno = enxio })
        (λ d.
          if_null d.open_child (none, record env { last_errno = eperm })
            (λ f. f inode path len env))

  unfoldable pub vfs_read : Vfs W → ℕ → ℕ → ℕ → Env W → ℤ × Env W
  vfs_read v inode buf len env =
      if_null (v.drivers (v.main_driver inode)) (fail enxio env)
        (λ d. if_null d.read (fail eperm env) (λ f. f inode buf len env))

  -- Without a `write` the source comes to `while(1);`.
  unfoldable pub vfs_write : Vfs W → ℕ → ℕ → ℕ → Env W → Run (ℤ × Env W)
  vfs_write v inode buf len env =
      if_null (v.drivers (v.main_driver inode)) (ok (fail enxio env))
        (λ d. if_null d.write out_of_fuel (λ f. ok (f inode buf len env)))

  unfoldable pub vfs_fsync : Vfs W → ℕ → Env W → ℤ × Env W
  vfs_fsync v inode env =
      if_null (v.drivers (v.main_driver inode)) (fail enxio env)
        (λ d. if_null d.fsync (fail eperm env) (λ f. f inode env))

-- `struct fd_struct_t`; the inode is none for NULL.
pub record FdStruct : Type 0 where
  pub inode : Option ℕ
  pub auth : ℕ

-- What the calls below read of `struct fd_info_t`: `fds` is the array of INNER_FD_COUNT (8), and
-- `fd_append` the one on pages of its own.
pub record FdInfo : Type 0 where
  pub fds : List FdStruct
  pub fd_append : List FdStruct
  pub fd_size : ℕ

abbrev pub can_write : ℕ → Bool
can_write auth = auth / 2 % 2 == 1

abbrev pub can_read : ℕ → Bool
can_read auth = auth / 4 % 2 == 1

-- `fd < 16 ? fds[fd] : fd_append[fd - 16]`: none is an access outside the array.
unfoldable pub fd_struct : FdInfo → ℕ → Option FdStruct
fd_struct i fd = if ltb fd 16 then get_elem? i.fds fd else get_elem? i.fd_append (fd - 16)

module _ {W : Type 0} where
  -- A NULL inode is read through: the processor faults.
  unfoldable pub vfs_sys_write : Vfs W → FdInfo → ℤ → ℕ → ℕ → Env W → Run (ℤ × Env W)
  vfs_sys_write v i (negsuc n) buf len env = ok (fail eperm env)
  vfs_sys_write v i (pos fd) buf len env =
      if leb i.fd_size fd
      then ok (fail eperm env)
      else if_null (fd_struct i fd) panic (λ s.
        if can_write s.auth
        then if_null s.inode panic (λ inode. vfs_write v inode buf len env)
        else ok (fail eperm env))

  unfoldable pub vfs_sys_read : Vfs W → FdInfo → ℤ → ℕ → ℕ → Env W → Run (ℤ × Env W)
  vfs_sys_read v i (negsuc n) buf len env = ok (fail eperm env)
  vfs_sys_read v i (pos fd) buf len env =
      if leb i.fd_size fd
      then ok (fail eperm env)
      else if_null (fd_struct i fd) panic (λ s.
        if can_read s.auth
        then if_null s.inode panic (λ inode. ok (vfs_read v inode buf len env))
        else ok (fail eperm env))

  unfoldable pub vfs_sys_fsync : Vfs W → FdInfo → ℤ → Env W → Run (ℤ × Env W)
  vfs_sys_fsync v i (negsuc n) env = ok (fail eperm env)
  vfs_sys_fsync v i (pos fd) env =
      if leb i.fd_size fd
      then ok (fail eperm env)
      else if_null (fd_struct i fd) panic
          (λ s. if_null s.inode (ok (fail eperm env)) (λ inode. ok (vfs_fsync v inode env)))

  unfoldable pub sys_write : Vfs W → FdInfo → ℤ → ℕ → ℕ → Env W → Run (ℤ × Env W)
  sys_write v i fd buf len env =
      if leb mem_start buf
      then ok (fail enomem env)
      else if ltb (mem_start - buf) len
      then ok (fail enomem env)
      else vfs_sys_write v i fd buf len env

  unfoldable pub sys_read : Vfs W → FdInfo → ℤ → ℕ → ℕ → Env W → Run (ℤ × Env W)
  sys_read v i fd buf len env =
      if leb mem_start buf
      then ok (fail enomem env)
      else if ltb (mem_start - buf) len
      then ok (fail enomem env)
      else vfs_sys_read v i fd buf len env
