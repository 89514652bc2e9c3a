-- ===== src/Vfs/Register.antt =====
-- Registered drivers are complete, so that no call through the table comes to a missing function.
use x_os_tmp.Base.{
  ℕ, ◌≡◌, ◌≢◌, refl, sym, ◌∙◌, ap, ◌==◌, Option, some, none, Run, ok, panic, out_of_fuel, if_null,
  set_at, set_at_self, set_at_ne, ℤ, pos, negsuc, Bool-cases, inl, inr, ==→eq, ==→ne, subst,
}
use x_os_tmp.Vfs.{
  Env, Handler, Driver, Vfs, fail, enxio, completed, or_default, vfs_register, vfs_write,
}

or_default-ne-none : {A : Type 0} (f : Option A) (d : A) → or_default f d ≢ none
or_default-ne-none none d e = cc
or_default-ne-none (some f) d e = cc

of_some : {A : Type 0} (a b : A) → some a ≡ some b → a ≡ b
of_some a b e = cc

module _ {W : Type 0} where
  -- No function of the driver is missing.
  pub record Complete (d : Driver W) : Type 0 where
    pub open_child : d.open_child ≢ none
    pub read : d.read ≢ none
    pub write : d.write ≢ none
    pub fsync : d.fsync ≢ none

  -- Every driver of the table is complete.
  pub record AllComplete (v : Vfs W) : Type 0 where
    pub complete : (n : ℕ) (d : Driver W) → v.drivers n ≡ some d → Complete d

  completed-Complete : (d : Driver W) → Complete (completed d)
  unfolding completed
  completed-Complete d = record {
    open_child = or_default-ne-none d.open_child _;
    read = or_default-ne-none d.read _;
    write = or_default-ne-none d.write _;
    fsync = or_default-ne-none d.fsync _;
  }

  filled :
      (d : Driver W) (num : ℕ) (v : Vfs W)
      → AllComplete v
      → AllComplete (record v { drivers = set_at v.drivers num (some (completed d)) })
  filled d num v a = record {
    complete = λ n d' e. elim (Bool-cases (n == num)) [
      | inl h ↦
          subst Complete
            (of_some _ _ (
              sym (set_at_self v.drivers num _)
              ∙ (ap (set_at v.drivers num (some (completed d))) (sym (==→eq n num h)) ∙ e)))
            (completed-Complete d)
      | inr h ↦ a.complete n d' (sym (set_at_ne v.drivers num _ n (==→ne n num h)) ∙ e)
    ];
  }

  registered :
      (d : Driver W) (num : ℕ) (v : Vfs W) (o : Option (Driver W))
      → AllComplete v
      → AllComplete
          (if_null {B = ℤ × Vfs W} o
            (pos 0, record v { drivers = set_at v.drivers num (some (completed d)) })
            (λ (d' : Driver W). (negsuc 0, v))).1
  registered d num v none a = filled d num v a
  registered d num v (some d') a = a

  -- vfs_register keeps every driver of the table complete, that is without a missing function,
  -- whatever it is given.
  pub vfs_register-AllComplete :
      (d : Option (Driver W)) (num : ℕ) (v : Vfs W)
      → AllComplete v
      → AllComplete (vfs_register d num v).1
  unfolding vfs_register
  vfs_register-AllComplete none num v a = a
  vfs_register-AllComplete (some d) num v a = registered d num v (v.drivers num) a

  -- The answer of a call through the table: of the driver, or a failure when there is none.
  abbrev pub driven :
      Option (Driver W) → (Driver W → Option (Handler W)) → ℕ → ℕ → ℕ → Env W → Run (ℤ × Env W)
  driven none f inode buf len env = ok (fail enxio env)
  driven (some d) f inode buf len env = if_null (f d) panic (λ h. ok (h inode buf len env))

  -- With complete drivers, vfs_write never comes to its endless loop: it gives the result of the
  -- function of the driver, or fails with ENXIO where the inode has no driver.
  pub vfs_write-dispatches :
      (v : Vfs W) (inode buf len : ℕ) (env : Env W)
      → AllComplete v
      → vfs_write v inode buf len env
        ≡ driven (v.drivers (v.main_driver inode)) (λ d. d.write) inode buf len env
  unfolding vfs_write
  vfs_write-dispatches v inode buf len env a = by_driver (v.drivers (v.main_driver inode)) refl
    where
      by_write :
          (d : Driver W)
          → (o : Option (Handler W)) → d.write ≡ o
          → d.write ≢ none
          → if_null o out_of_fuel (λ f. ok (f inode buf len env))
            ≡ if_null o panic (λ h. ok (h inode buf len env))
      by_write d none e ne = absurd (ne e)
      by_write d (some f) e ne = refl

      by_driver :
          (o : Option (Driver W))
          → v.drivers (v.main_driver inode) ≡ o
          → if_null o
              (ok (fail enxio env))
              (λ d. if_null d.write out_of_fuel (λ f. ok (f inode buf len env)))
            ≡ driven o (λ d. d.write) inode buf len env
      by_driver none e = refl
      by_driver (some d) e = by_write d d.write refl ((a.complete _ d e).write)
