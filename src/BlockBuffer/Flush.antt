-- ===== src/BlockBuffer/Flush.antt =====
-- A flush never gets behind its own assertions: `circular_list_is_inlist` answers 0 for a node that
-- it finds, and the assertions take the answer for the opposite.
use x_os_tmp.Base.{
  ℕ, suc, ◌-◌, ◌<◌, ◌≡◌, refl, inl, inr, true, false, not, Bool, Bool-cases, List, ◌∷◌, ◌++◌,
  length, In, In-split, arith, ok, panic, set_at, ℤ,
}
use x_os_tmp.CircularList.{node, circular_list_remove}
use x_os_tmp.CircularList.Seg.{Ring}
use x_os_tmp.CircularList.Scan.{mem, mem-In, is_inlist-Ring}
use x_os_tmp.CircularList.Rings.{Rings, Rings-remove, with_row, removed-out}
use x_os_tmp.BlockDriver.{block_driver_get_max_write}
use x_os_tmp.BlockBuffer.{
  Buffers, has, blkbuffer_flag_inqueue, blkbuffer_flag_dirty, blkbuffer_flag_lock, free_list,
  sync_list, dirty_list, answers_nonzero, take_off, mark_flushing, collect, flush_block_buffer,
}

-- Where a buffer stands, by its flag: on the list of the dirty ones, or on none.
abbrev pub Stands : Bool → ℕ → (ℕ → List ℕ) → Type 0
Stands true p t = In p (t dirty_list)
Stands false p t = (i : ℕ) → In p (t i) → ⊥

not-mem : (p : ℕ) (ps : List ℕ) → (In p ps → ⊥) → mem p ps ≡ false
not-mem p ps h = elim (Bool-cases (mem p ps)) [ inl e ↦ absurd (h (mem-In p ps e)) | inr e ↦ e ]

module _ {W : Type 0} where
  -- The three lists of the manager.
  pub record Listed (fuel : ℕ) (b : Buffers W) (t : ℕ → List ℕ) : Type 0 where
    pub rings : Rings b.lists 3 t
    pub short : (i : ℕ) → i < 3 → length (t i) < fuel

  answers_nonzero-mem :
      (fuel i p : ℕ) (b : Buffers W) (qs : List ℕ)
      → length qs < fuel
      → Ring b.lists i qs
      → answers_nonzero fuel i p b ≡ ok (not (mem p qs))
  unfolding answers_nonzero
  answers_nonzero-mem fuel i p b qs h r =
      rw (answers_nonzero, is_inlist-Ring fuel b.lists i p qs h r) refl

  -- On no list, a buffer fails the first assertion.
  mark_flushing-panics :
      (fuel p : ℕ) (b : Buffers W) (t : ℕ → List ℕ)
      → Rings b.lists 3 t
      → length (t free_list) < fuel
      → (In p (t free_list) → ⊥)
      → mark_flushing fuel p b ≡ panic
  unfolding mark_flushing
  mark_flushing-panics fuel p b t r h o =
      rw
        (
          answers_nonzero-mem fuel free_list p b (t free_list) h (r.ring free_list (omega arith)),
          not-mem p (t free_list) o,
        )
        refl

  module _ (f p max_len : ℕ) (b : Buffers W) (t : ℕ → List ℕ) (l : Listed (suc f) b t) where
    queued-panics :
        (len rml_count : ℕ)
        → has blkbuffer_flag_inqueue (b.flags p) ≡ true
        → In p (t dirty_list)
        → collect (suc f) max_len p len rml_count b ≡ panic
    unfolding collect take_off
    queued-panics len rml_count q k =
        let (xs, ys, e) = In-split p (t dirty_list) k in
        rw
          (
            q,
            answered free_list (omega arith),
            answered sync_list (omega arith),
            answered dirty_list (omega arith),
            not-mem p (t free_list) not_free,
            after xs ys e,
          )
          refl
      where
        answered : (i : ℕ) → i < 3 → answers_nonzero (suc f) i p b ≡ ok (not (mem p (t i)))
        answered i h = answers_nonzero-mem (suc f) i p b (t i) (l.short i h) (l.rings.ring i h)

        not_free : In p (t free_list) → ⊥
        not_free m = absurd (omega (arith, l.rings.apart free_list dirty_list p m k))

        -- The state behind the removal.
        off : Buffers W
        off = record b {
          lists = circular_list_remove (node p) b.lists;
          flags = set_at b.flags p (b.flags p - 1);
        }

        after :
            (xs ys : List ℕ) → t dirty_list ≡ xs ++ (p ∷ ys) → mark_flushing (suc f) p off ≡ panic
        after xs ys e =
            mark_flushing-panics (suc f) p off (with_row t dirty_list (xs ++ ys))
              (Rings-remove b.lists 3 t dirty_list (omega arith) l.rings xs p ys e)
              (l.short free_list (omega arith))
              (removed-out b.lists 3 t dirty_list xs p ys (omega arith) e l.rings free_list)

    loose-panics :
        (len rml_count : ℕ)
        → has blkbuffer_flag_inqueue (b.flags p) ≡ false
        → ((i : ℕ) → In p (t i) → ⊥)
        → collect (suc f) max_len p len rml_count b ≡ panic
    unfolding collect take_off
    loose-panics len rml_count q k =
        rw
          (
            q,
            mark_flushing-panics (suc f) p b t l.rings (l.short free_list (omega arith))
                (k free_list),
          )
          refl

    collect-panics :
        (q : Bool)
        → has blkbuffer_flag_inqueue (b.flags p) ≡ q
        → Stands q p t
        → collect (suc f) max_len p 0 0 b ≡ panic
    collect-panics true e k = queued-panics 0 0 e k
    collect-panics false e k = loose-panics 0 0 e k

  -- On well-formed lists of the free, the synchronised and the dirty buffers, with fuel above
  -- their lengths, flush_block_buffer of a dirty buffer that is not locked, whose flag INQUEUE
  -- says whether it is on the list of the dirty ones or on none, and whose driver has a place in
  -- the table, always fails an assertion.
  pub flush_block_buffer-panics :
      (f p max_len : ℕ) (timeout : ℤ) (b : Buffers W) (t : ℕ → List ℕ)
      → Listed (suc f) b t
      → has blkbuffer_flag_dirty (b.flags p) ≡ true
      → has blkbuffer_flag_lock (b.flags p) ≡ false
      → Stands (has blkbuffer_flag_inqueue (b.flags p)) p t
      → block_driver_get_max_write b.drivers (b.main_driver p) ≡ ok max_len
      → flush_block_buffer (suc f) p timeout b ≡ panic
  unfolding flush_block_buffer
  flush_block_buffer-panics f p max_len timeout b t l d k s w =
      rw (d, k, w, collect-panics f p max_len b t l (has blkbuffer_flag_inqueue (b.flags p)) refl s)
        refl
