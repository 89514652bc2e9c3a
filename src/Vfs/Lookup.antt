-- ===== src/Vfs/Lookup.antt =====
-- Where `vfs_bind_fd` stores a descriptor behind INNER_FD_COUNT, and where the calls on descriptors
-- look for it.
use x_os_tmp.Base.{ℕ, zero, suc, ◌+◌, ◌-◌, List, [], ◌∷◌}
use x_os_tmp.Vfs.{Vfs, FdStruct, FdInfo}
use x_os_tmp.Vfs.Fds.{FdTable, inner_fd_count}

-- The first `n` entries of an array from i on.
unfoldable pub entries_from : ℕ → ℕ → (ℕ → FdStruct) → List FdStruct
entries_from i zero entries = []
entries_from i (suc n) entries = entries i ∷ entries_from (i + 1) n entries

-- What the calls on descriptors read of a table.
abbrev pub fd_info : FdTable → FdInfo
fd_info t = record {
  fds = entries_from 0 inner_fd_count t.fds;
  fd_append = entries_from 0 (t.fd_capacity - inner_fd_count) t.appended;
  fd_size = t.fd_size;
}
