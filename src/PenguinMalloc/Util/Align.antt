-- ===== src/PenguinMalloc/Util/Align.antt =====
-- Alignment and page counts of util.c.
use doomsday_kernel_modules.Base.{ℕ, ◌+◌, ◌-◌, ◌*◌, ◌/◌, ◌%◌, ◌≤◌, ◌<◌, ◌≡◌, arith, min, max}
use doomsday_kernel_modules.PenguinMalloc.Config.{page_size, size_mod}
use doomsday_kernel_modules.PenguinMalloc.Util.{
  align_addr_to_page_size_up, align_addr_to_page_size_down, pages_count, dist,
}

-- Below the last page of the address space, `align_addr_to_page_size_up` returns the first page
-- boundary strictly above the address: an address on a boundary moves by a whole page.
pub align_addr_to_page_size_up_next :
    (a : ℕ)
    → a + page_size < size_mod
    → (align_addr_to_page_size_up a % page_size ≡ 0)
      × (a < align_addr_to_page_size_up a)
      × (align_addr_to_page_size_up a ≤ a + page_size)
unfolding align_addr_to_page_size_up
align_addr_to_page_size_up_next a h = omega arith

-- `align_addr_to_page_size_down` returns the last page boundary that is not above the address.
pub align_addr_to_page_size_down_page :
    (a : ℕ)
    → (align_addr_to_page_size_down a % page_size ≡ 0)
      × (align_addr_to_page_size_down a ≤ a)
      × (a < align_addr_to_page_size_down a + page_size)
unfolding align_addr_to_page_size_down
align_addr_to_page_size_down_page a = omega arith

-- Where the end lies on a later page than the start, `pages_count` is the number of whole pages
-- strictly between the two, and that many pages from the aligned start end at most at `end`.
pub pages_count_fits :
    (b e : ℕ)
    → b / page_size < e / page_size
    → e < size_mod
    → (pages_count b e ≡ e / page_size - b / page_size - 1)
      × (align_addr_to_page_size_up b + pages_count b e * page_size ≤ e)
unfolding pages_count align_addr_to_page_size_up align_addr_to_page_size_down
pages_count_fits b e h lt = ground arith

-- A region that lies inside one page has no whole page, but `pages_count` returns 2^64 - 1: the
-- aligned start is one page above the aligned end, and the negative quotient is read as unsigned.
pub pages_count_inside_page :
    (b e : ℕ)
    → b / page_size ≡ e / page_size
    → b + page_size < size_mod
    → pages_count b e ≡ size_mod - 1
unfolding pages_count align_addr_to_page_size_up align_addr_to_page_size_down
pages_count_inside_page b e h lt = ground arith

-- `dist` is the distance of two addresses: it does not depend on their order, and adding it to the
-- smaller one gives the larger one.
pub dist_add : (a b : ℕ) → (dist a b ≡ dist b a) × (min a b + dist a b ≡ max a b)
unfolding dist
dist_add a b = ground arith
