-- ===== src/BlockDriver.antt =====
-- src/block_driver.c and inc/block_driver.h: the table of the block drivers.
-- What a driver does is a parameter: functions on a world `W` of their own. `none` is NULL, and a
-- place outside the table of 32 stops the run.
pub mod Dispatch
use x_os_tmp.Base.{
  ℕ, zero, suc, List, [], ◌∷◌, Option, some, none, Run, ok, panic, ◌>>=◌, get_elem?, set, if_null,
  ℤ, pos, negsuc,
}

module _ (W : Type 0) where
  -- Of a buffer, a number of blocks and a timeout.
  abbrev pub Transfer : Type 0
  Transfer = ℕ → ℕ → ℤ → W → ℤ × W

  -- `struct block_driver_desc_t`
  pub record BlockDriver : Type 0 where
    pub read_blocks : Option Transfer
    pub write_blocks : Option Transfer
    pub max_read : ℕ
    pub max_write : ℕ

  -- `block_drivers`
  abbrev pub Drivers : Type 0
  Drivers = List (Option BlockDriver)

abbrev pub repeat {ℓ} : {A : Type ℓ} → ℕ → A → List A
repeat zero a = []
repeat (suc n) a = a ∷ repeat n a

-- `table[n]`
abbrev pub slot {ℓ} : {A : Type ℓ} → List A → ℕ → Run A
slot table n = if_null (get_elem? table n) panic ok

module _ {W : Type 0} where
  unfoldable pub block_driver_module_init : Drivers W
  block_driver_module_init = repeat 32 none

  unfoldable pub block_driver_register :
      Option (BlockDriver W) → ℕ → Drivers W → Run (ℤ × Drivers W)
  block_driver_register driver main_driver ds = do
    old ← slot ds main_driver
    ok (if_null old (pos 0, set ds main_driver driver) (λ d. (negsuc 0, ds)))

  -- `main_driver` is the field of each buffer.
  unfoldable pub block_driver_read_blocks : (ℕ → ℕ) → Drivers W → ℕ → ℕ → ℤ → W → Run (ℤ × W)
  block_driver_read_blocks main_driver ds start count timeout w = do
    o ← slot ds (main_driver start)
    ok (
        if_null o (negsuc 0, w)
          (λ d. if_null d.read_blocks (negsuc 0, w) (λ f. f start count timeout w)))

  unfoldable pub block_driver_write_blocks : (ℕ → ℕ) → Drivers W → ℕ → ℕ → ℤ → W → Run (ℤ × W)
  block_driver_write_blocks main_driver ds start count timeout w = do
    o ← slot ds (main_driver start)
    ok (
        if_null o (negsuc 0, w)
          (λ d. if_null d.write_blocks (negsuc 0, w) (λ f. f start count timeout w)))

  unfoldable pub block_driver_get_max_read : Drivers W → ℕ → Run ℕ
  block_driver_get_max_read ds main_driver = do
    o ← slot ds main_driver
    ok (if_null o 0 (λ d. d.max_read))

  unfoldable pub block_driver_get_max_write : Drivers W → ℕ → Run ℕ
  block_driver_get_max_write ds main_driver = do
    o ← slot ds main_driver
    ok (if_null o 0 (λ d. d.max_write))
