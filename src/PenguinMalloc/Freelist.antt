-- ===== src/PenguinMalloc/Freelist.antt =====
-- penguin_malloc/src/freelist.c: lists of free blocks, linked through the first word of each block.
-- `Memory` gives the word at an address, which lies over the bytes up to the eighth; the words at two
-- addresses less than 8 apart overlap. A `freelist_t *` is the pointer variable that it points
-- to, or `none` where it is NULL.
pub mod Chain
mod Tests
use doomsday_kernel_modules.Base.{
  ℕ, ◌+◌, ◌-◌, ◌*◌, ◌/◌, ◌%◌, ◌^◌, Bool, Option, none, some, ltb, leb, ◌==◌, if◌then◌else◌,
}

abbrev pub Memory : Type 0
Memory = ℕ → ℕ

abbrev pub null : ℕ
null = 0

-- The word at `a` after a word was stored at `p`, where the two overlap; the least byte comes first.
unfoldable pub mixed : Memory → ℕ → ℕ → ℕ → ℕ
mixed mem p v a =
    if ltb a p
    then mem a % 256 ^ (p - a) + v * 256 ^ (p - a) % 2 ^ 64
    else v / 256 ^ (a - p) + mem a / 256 ^ (p + 8 - a) * 256 ^ (p + 8 - a)

unfoldable pub store : Memory → ℕ → ℕ → Memory
unfolding mixed
store mem p v a =
    if a == p
    then v
    else (if leb (a + 8) p then mem a else (if leb (p + 8) a then mem a else mixed mem p v a))

unfoldable pub freelist_get_next : Memory → ℕ → ℕ
freelist_get_next mem node = if node == null then null else mem node

unfoldable pub freelist_set_next : Memory → ℕ → ℕ → Memory
unfolding store
freelist_set_next mem node next = if node == null then mem else store mem node next

-- The new list variable and the new memory.
unfoldable pub freelist_push : Memory → Option ℕ → ℕ → Option ℕ × Memory
unfolding freelist_set_next
freelist_push mem none block = (none, mem)
freelist_push mem (some list) block = (some block, freelist_set_next mem block list)

-- The popped block, NULL if there is none, and the new list variable.
unfoldable pub freelist_pop : Memory → Option ℕ → ℕ × Option ℕ
unfolding freelist_get_next
freelist_pop mem none = (null, none)
freelist_pop mem (some list) =
    (list, some (if list == null then list else freelist_get_next mem list))

unfoldable pub freelist_get : ℕ → ℕ
freelist_get list = list

pub freelist_empty : ℕ → Bool
freelist_empty list = list == null
