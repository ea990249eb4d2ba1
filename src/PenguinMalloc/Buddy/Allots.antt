-- ===== src/PenguinMalloc/Buddy/Allots.antt =====
-- Blocks from `buddy_alloc`, one after the other.
use native.Mathlib.Nat.{add-zero, pow-suc}
use doomsday_kernel_modules.Base.{
  dec_lt, ℕ, zero, suc, ◌+◌, ◌-◌, ◌*◌, ◌^◌, ◌≡◌, ◌≢◌, ◌<◌, ◌≤◌, ◌⊎◌, inl, inr, refl, sym, ap, ◌∙◌,
  Option, none, some, List, [], ◌∷◌, arith, get_elem?, set, set_same, ==_of_ne,
}
use doomsday_kernel_modules.PenguinMalloc.Config.{page_size}
use doomsday_kernel_modules.PenguinMalloc.BuddyUtil.{
  block_size, to_pointer, to_index, best_fit_layer,
}
use doomsday_kernel_modules.PenguinMalloc.BuddyUtil.Blocks.{
  IsArena, to_index-to_pointer, split_children, block_size_halves,
}
use doomsday_kernel_modules.PenguinMalloc.BuddyUtil.BestFit.{best_fit_layer_exact}
use doomsday_kernel_modules.PenguinMalloc.Freelist.{Memory, null, freelist_pop, freelist_get_next}
use doomsday_kernel_modules.PenguinMalloc.Freelist.Chain.{Chain-Begins}
use doomsday_kernel_modules.PenguinMalloc.Buddy.{
  BuddyAlloc, Halves, find_layer, split_loop, split_block, pop_at, buddy_alloc,
}
use doomsday_kernel_modules.PenguinMalloc.Buddy.Search.{IsFound, find_layer-IsFound}
use doomsday_kernel_modules.PenguinMalloc.Buddy.Pool.{bytes, bytes_positive, relist, IsPool}
use doomsday_kernel_modules.PenguinMalloc.Buddy.Taking.{pop-IsPool}
use doomsday_kernel_modules.PenguinMalloc.Buddy.Splitting.{split-IsPool}

List_cases : (xs : List ℕ) → (xs ≡ []) ⊎ ((p : ℕ) × (rest : List ℕ) × (xs ≡ p ∷ rest))
List_cases [] = inl refl
List_cases (p ∷ rest) = inr (p, rest, refl)

some_inj : {a b : ℕ} → some a ≡ some b → a ≡ b
some_inj e = cc

-- The allocator of the arena, less the words of the free blocks.
abbrev pub allocator : (begin k layers blocks : ℕ) → Halves → BuddyAlloc
allocator begin k layers blocks s = record {
  bitmap = s.bits;
  freelist = s.lists;
  buddy_layers = layers;
  blocks_count = blocks;
  root_block_size = 2 ^ k;
  begin = begin;
}

-- How an alloc of 2^j pages ends: with NULL and nothing changed, where no block of so many pages or more is
-- free, or with the first bytes of a block of such a layer, the first one of its list.
abbrev pub Allots :
    (begin k layers blocks : ℕ)
    → Halves
    → (ℕ → List ℕ)
    → List (ℕ × ℕ)
    → (j : ℕ) → Option (ℕ × BuddyAlloc × Memory)
    → Type 0
Allots begin k layers blocks s free used j none = ⊥
Allots begin k layers blocks s free used j (some (ptr, alloc, words)) =
    ((ptr ≡ null)
      × (alloc ≡ allocator begin k layers blocks s)
      × (words ≡ s.words)
      × ((m : ℕ) → m ≤ k - j → free m ≡ []))
    ⊎ ((ptr ≢ null)
        × ((m : ℕ) × (rest : List ℕ) × (m ≤ k - j) × (free m ≡ ptr ∷ rest))
        × ((s' : Halves) × (free' : ℕ → List ℕ) × (alloc ≡ allocator begin k layers blocks s')
            × (words ≡ s'.words)
            × IsPool begin k s' free' ((ptr, 2 ^ j * page_size) ∷ used)))

module _ (begin k layers blocks : ℕ) (arena : IsArena begin (2 ^ k)) (not_null : 1 ≤ begin)
    (small : k ≤ 63) where
  -- The rounds of the splitting loop.
  split_loop-IsPool :
      (n l i : ℕ) (s : Halves) (free : ℕ → List ℕ) (used : List (ℕ × ℕ)) (p : ℕ)
      → l + n ≤ k
      → i < 2 ^ l
      → p ≡ to_pointer begin l i (2 ^ k)
      → IsPool begin k s free ((p, bytes k l) ∷ used)
      → (s' : Halves) × (split_loop begin (2 ^ k) n l i s ≡ some s')
        × ((free' : ℕ → List ℕ) × IsPool begin k s' free' ((p, bytes k (l + n)) ∷ used))
  unfolding split_loop
  split_loop-IsPool zero l i s free used p fits below at pool = (s, refl, (free, rw add-zero pool))
  split_loop-IsPool (suc n) l i s free used p fits below at pool =
      let deep : l < k = omega arith in
      let (s₁, run, half) =
        split-IsPool begin k arena not_null s free used l p i deep below at pool in
      let left = (split_children arena l i below (block_size_halves k l deep)).0 in
      let next : suc l + n ≡ l + suc n = omega arith in
      let (s', runs, (free', rest)) =
        split_loop-IsPool n (suc l) (i * 2) s₁ _ used p (omega arith) (omega (arith, pow-suc 2 l))
          (at ∙ sym left) half in
      (s', rw run runs, (free', rw (← next) rest))

  index_at :
      (l p i : ℕ)
      → l ≤ k
      → i < 2 ^ l
      → p ≡ to_pointer begin l i (2 ^ k)
      → to_index begin l p (2 ^ k) ≡ some i
  index_at l p i low below at =
      let start : p ≡ to_pointer begin l i (2 ^ k) + 0 = omega arith in
      rw start (to_index-to_pointer arena l i below 0 (bytes_positive k l low))

  -- The first block of a list, split down to the wanted layer.
  split_block-IsPool :
      (s : Halves) (free : ℕ → List ℕ) (used : List (ℕ × ℕ)) (l n p : ℕ) (rest : List ℕ)
      → l + n ≤ k
      → free l ≡ p ∷ rest
      → IsPool begin k s free used
      → (s' : Halves) × (split_block
            (allocator begin k layers blocks (record s { lists = set s.lists l (s.words p) }))
            s.words
            p
            l
            n
          ≡ some (p, allocator begin k layers blocks s', s'.words))
        × ((free' : ℕ → List ℕ) × IsPool begin k s' free' ((p, bytes k (l + n)) ∷ used))
  unfolding split_block
  split_block-IsPool s free used l n p rest fits first pool =
      let low : l ≤ k = omega arith in
      let (i, below, at) = (rw first at (pool.placed l low)).0 in
      let popped = pop-IsPool begin k arena not_null s free used l p rest low first pool in
      let (s', runs, after) =
        split_loop-IsPool n l i (record s { lists = set s.lists l (s.words p) })
          (relist free l rest) used p fits below at popped in
      (s', rw (index_at l p i low below at, runs) refl, after)

  -- Where the search ends at an empty list, all the lists that it has looked at are empty.
  none_free :
      (s : Halves) (free : ℕ → List ℕ) (used : List (ℕ × ℕ)) (j l : ℕ)
      → j ≤ k
      → IsFound s.lists (k - j) l
      → get_elem? s.lists l ≡ some null
      → IsPool begin k s free used
      → (m : ℕ) → m ≤ k - j
      → free m ≡ []
  none_free s free used j l fits found top pool m below =
      let (h, head, chain) = pool.heads m (omega arith) in
      let empty : get_elem? s.lists m ≡ some null = elim (dec_lt l m) [
        | yes behind ↦ found.empty_between m behind below
        | no not_behind ↦ elim found.at_end [
          | inl is_top ↦ let same : m ≡ l = omega arith in rw same top
          | inr (g, there, ne) ↦ absurd (ne (some_inj (sym there ∙ top)))
        ]
      ] in
      let is_null : h ≡ null = some_inj (sym head ∙ empty) in
      elim (List_cases (free m)) [
        | inl nothing ↦ nothing
        | inr (p, rest, first) ↦
            let (is_first, ne, once, behind) = Chain-Begins (rw first at chain) in
            absurd (ne (sym is_first ∙ is_null))
      ]

  found-Allots :
      (s : Halves) (free : ℕ → List ℕ) (used : List (ℕ × ℕ)) (j l : ℕ)
      → j ≤ k
      → best_fit_layer (2 ^ j) (2 ^ k) ≡ some (k - j)
      → block_size (k - j) (2 ^ k) ≡ 2 ^ j
      → find_layer s.lists (k - j) ≡ some l
      → IsFound s.lists (k - j) l
      → IsPool begin k s free used
      → Allots begin k layers blocks s free used j
          (buddy_alloc (allocator begin k layers blocks s) s.words (2 ^ j))
  unfolding buddy_alloc pop_at freelist_pop freelist_get_next
  found-Allots s free used j l fits best exact at_layer found pool =
      let le = found.le_start in
      let (h, head, chain) = pool.heads l (omega arith) in
      elim (List_cases (free l)) [
        | inl empty ↦
            let is_null : h ≡ null = Chain-Begins (rw empty at chain) in
            let top : get_elem? s.lists l ≡ some null = head ∙ ap some is_null in
            rw (best, at_layer, top, set_same s.lists l top)
              (inl (
                refl,
                refl,
                refl,
                λ m below. none_free s free used j l fits found top pool m below,
              ))
        | inr (p, rest, first) ↦
            let (is_first, ne, once, behind) = Chain-Begins (rw first at chain) in
            let top : get_elem? s.lists l ≡ some p = head ∙ ap some is_first in
            let down : l + (k - j - l) ≡ k - j = omega arith in
            let (s', runs, (free', after)) =
              split_block-IsPool s free used l (k - j - l) p rest (omega arith) first pool in
            rw (best, at_layer, top, ==_of_ne ne, runs)
              (inr (ne, (l, rest, le, first), (s', free', refl, refl, (rw (down, exact) at after))))
      ]

  -- In an arena at an address that is not NULL, below 2^64 with its root block of 2^k pages, k at most 63,
  -- whose bitmap and free lists reach layer k, and whose lists hold blocks of their layers that overlap
  -- neither one another nor a block in use: an alloc of 2^j pages, j at most k, either returns NULL and
  -- changes nothing, and then the lists of all layers of blocks as large are empty; or it returns the address
  -- of the first free block of one of these layers, whose first 2^j pages lie in the arena and overlap no
  -- block in use and none that is free afterwards.
  pub buddy_alloc-Allots :
      (s : Halves) (free : ℕ → List ℕ) (used : List (ℕ × ℕ)) (j : ℕ)
      → j ≤ k
      → IsPool begin k s free used
      → Allots begin k layers blocks s free used j
          (buddy_alloc (allocator begin k layers blocks s) s.words (2 ^ j))
  buddy_alloc-Allots s free used j fits pool =
      let (best, exact) = best_fit_layer_exact k j small fits in
      let lists_in = pool.sized.lists_in in
      let (l, at_layer, found) = find_layer-IsFound s.lists (k - j) (omega arith) in
      found-Allots s free used j l fits best exact at_layer found pool
