-- ===== src/CircularList.antt =====
-- src/circular_list.c and inc/circular_list.h: the intrusive circular list of the kernel.
-- The nodes of one kind (the `sched_node`s, the `sleep_info.node`s, the `waitlist_node.node`s, each
-- with the heads they are linked to) are one store. A node is `head i`, the i-th list head of that
-- kind, or `node p`, the one embedded in the structure number p, so that `parentof` is a match.
pub mod Seg
pub mod Edit
pub mod Cut
pub mod Scan
pub mod Rings
use x_os_tmp.Base.{ℕ, zero, suc, ◌+◌, Bool, true, false, Option, none, some, ◌==◌, if◌then◌else◌}

pub data Ref : Type 0 where
  head : ℕ → Ref
  node : ℕ → Ref

abbrev pub ref_eq : Ref → Ref → Bool
ref_eq (head i) (head j) = i == j
ref_eq (head i) (node q) = false
ref_eq (node p) (head j) = false
ref_eq (node p) (node q) = p == q

-- `struct list_node_t` at every address.
pub record Links : Type 0 where
  pub next : Ref → Ref
  pub pre : Ref → Ref

-- One assignment through a pointer.
unfoldable pub update : (Ref → Ref) → Ref → Ref → Ref → Ref
update f a v x = if ref_eq x a then v else f x

abbrev pub set_next : Ref → Ref → Links → Links
set_next a v l = record l { next = update l.next a v }

abbrev pub set_pre : Ref → Ref → Links → Links
set_pre a v l = record l { pre = update l.pre a v }

unfoldable pub circular_list_init : Ref → Links → Links
circular_list_init h l = set_pre h h (set_next h h l)

-- The four assignments in their order; the last reads `node->next` again.
unfoldable pub circular_list_insert : Ref → Ref → Links → Links
circular_list_insert position n l =
    let l₁ = set_next n (l.next position) l in
    let l₂ = set_pre n position l₁ in let l₃ = set_next position n l₂ in set_pre (l₃.next n) n l₃

unfoldable pub circular_list_remove : Ref → Links → Links
circular_list_remove n l =
    let l₁ = set_pre (l.next n) (l.pre n) l in set_next (l₁.pre n) (l₁.next n) l₁

-- `for(p = head->next; p != head; p = p->next) if(p == node) return 0; return -1;`
-- `some true` is the 0 of the source; `none` means that the fuel ran out.
pub is_inlist_from : ℕ → Ref → Ref → Ref → Links → Option Bool
is_inlist_from zero p h n l = none
is_inlist_from (suc f) p h n l =
    let rest = is_inlist_from f (l.next p) h n l in
    if ref_eq p h then some false else if ref_eq p n then some true else rest

unfoldable pub circular_list_is_inlist : ℕ → Ref → Ref → Links → Option Bool
unfolding is_inlist_from
circular_list_is_inlist fuel h n l = is_inlist_from fuel (l.next h) h n l

pub size_from : ℕ → Ref → Ref → ℕ → Links → Option ℕ
size_from zero p h len l = none
size_from (suc f) p h len l =
    let rest = size_from f (l.next p) h (len + 1) l in if ref_eq p h then some len else rest

unfoldable pub circular_list_size : ℕ → Ref → Links → Option ℕ
unfolding size_from
circular_list_size fuel h l = size_from fuel (l.next h) h 0 l

unfoldable pub circular_list_is_empty : Ref → Links → Bool
circular_list_is_empty h l = ref_eq (l.next h) h
