-- ===== src/Tests/Areas.antt =====
-- The area of the kernel after its initialisation, and a fork of a table.
use x_os_tmp.Base.{
  ℕ, ◌/◌, ==→eq, ==→ne, Bool-cases, inl, inr, one, one_ne, one_cases, occurs, ◌≤◌, ◌==◌,
  if◌then◌else◌, ok, ◌+◌, ◌^◌, ◌≡◌, refl, none, some, arith,
}
use x_os_tmp.Buddy.{
  Buddy, init_buddy_module, get_address_area, free_address_area, position_of, mem_start,
}
use x_os_tmp.Buddy.Free.{Freed, free_address_area-Freed}
use x_os_tmp.Buddy.Blocks.{Blocks, covers}
use x_os_tmp.Buddy.Get.{Outcome, get_address_area-Outcome}
use x_os_tmp.Buddy.Init.{
  fresh_lists, from-below, from-once, init_buddy_module-Blocks, init_buddy_module-Paired,
}
use x_os_tmp.Memory.Fork.{Fork}
use x_os_tmp.Pages.{Pages}
use x_os_tmp.Tests.Devices.{one_page}
use x_os_tmp.Tests.Kernels.{idle}

abbrev pub zeroed : Buddy
zeroed = record { map = λ n w. 0; next = λ n p. none; prev = λ n p. none; list_head = λ n. none }

abbrev pub fresh : Buddy
fresh = init_buddy_module zeroed

-- A block of 2^13 pages is the first half of the block 1 of the level above.
get_address_area-Outcome_example : Outcome 13 fresh fresh_lists (get_address_area 13 fresh)
get_address_area-Outcome_example =
    get_address_area-Outcome 13 fresh fresh_lists (omega arith) (init_buddy_module-Blocks zeroed)

first_block : (get_address_area 13 fresh).0 ≡ some (0xc0000000 + 2 ^ 26)
unfolding get_address_area init_buddy_module
first_block = refl

init_buddy_module-Blocks_example : Blocks fresh fresh_lists
init_buddy_module-Blocks_example = init_buddy_module-Blocks zeroed

-- The first half of the block 0 of the highest level is not free.
kept_block : (g : ℕ) → covers 15 0 fresh_lists g + one (g / 2 ^ 13) 0 ≤ 1
unfolding covers occurs
kept_block g = elim (Bool-cases (g / 2 ^ 13 == 0)) [
  | inl e ↦ omega (
    arith,
    one_cases (g / 2 ^ 13) 0,
    from-below 14 1 (g / 2 ^ 14) (omega (arith, ==→eq (g / 2 ^ 13) 0 e)),
  )
  | inr e ↦
      omega (arith, one_ne (g / 2 ^ 13) 0 (==→ne (g / 2 ^ 13) 0 e), from-once 14 1 (g / 2 ^ 14))
]

free_address_area-Freed_example :
    (b' : Buddy) × (free_address_area mem_start 13 fresh ≡ ok b')
    × Freed 13 (position_of 13 mem_start) fresh_lists b'
free_address_area-Freed_example =
    free_address_area-Freed 13 mem_start fresh fresh_lists (omega arith) (omega arith) (omega arith)
      (init_buddy_module-Blocks zeroed) (init_buddy_module-Paired zeroed (λ n w. refl)) kept_block

-- The entries 0 and 1 lead to the page 5; the second one is present.
abbrev table : ℕ → ℕ
table i = if i == 1 then 0x5007 else if i == 0 then 0x5006 else 0

abbrev parent : Fork
parent = record { kernel = idle; share = λ x. 1; flags = λ x. 1; src = table; dst = λ i. 0 }

-- The page 7 is free, and the whole area but its ends.
abbrev machine : Pages
machine = record { memory = one_page; buddy = fresh }
