-- ===== src/Vfs/Access.antt =====
-- What `sys_write` and `sys_read` refuse before any driver is called.
use x_os_tmp.Base.{ℕ, ◌+◌, ◌≡◌, ltb, leb, if◌then◌else◌, arith, ok, ℤ, ◌||◌}
use x_os_tmp.Vfs.{
  Env, Vfs, FdInfo, fail, enomem, mem_start, vfs_sys_write, vfs_sys_read, sys_write, sys_read,
}

module _ {W : Type 0} (v : Vfs W) (i : FdInfo) (fd : ℤ) (buf len : ℕ) (env : Env W) where
  -- sys_write and sys_read of a buffer that starts at or above MEM_START or ends above it fail
  -- with ENOMEM and change nothing else, and are vfs_sys_write and vfs_sys_read for every other
  -- buffer.
  pub sys_write_read-guarded :
      (sys_write v i fd buf len env ≡ (
        if ltb mem_start (buf + len) || leb mem_start buf
        then ok (fail enomem env)
        else vfs_sys_write v i fd buf len env))
      × (sys_read v i fd buf len env ≡ (
          if ltb mem_start (buf + len) || leb mem_start buf
          then ok (fail enomem env)
          else vfs_sys_read v i fd buf len env))
  unfolding sys_write sys_read
  sys_write_read-guarded = (ground arith, ground arith)
