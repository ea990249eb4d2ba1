-- ===== src/PenguinMalloc/Slab/Objects.antt =====
-- The objects of a slab with one cache: those in use and those on the free list.
use doomsday_kernel_modules.Base.{
  ℕ, ◌+◌, ◌*◌, ◌≡◌, ◌<◌, ◌≤◌, ◌⊎◌, inl, inr, ◌∙◌, true, List, [], ◌∷◌, length, All, EachPair,
  All-map, All-zip, arith,
}
use doomsday_kernel_modules.PenguinMalloc.Freelist.{Memory, null, store}
use doomsday_kernel_modules.PenguinMalloc.Freelist.Chain.{
  Far, Chain, FarFrom, store_same, store-Far,
}
use doomsday_kernel_modules.PenguinMalloc.SlabCaches.{SlabAlloc, Heap}

-- Two objects of the size do not overlap.
abbrev pub Apart : ℕ → ℕ → ℕ → Type 0
Apart size p q = (p + size ≤ q) ⊎ (q + size ≤ p)

pub Apart-sym : (size p q : ℕ) → Apart size p q → Apart size q p
Apart-sym size p q (inl h) = inr h
Apart-sym size p q (inr h) = inl h

-- An object of the size lies between two bounds.
abbrev pub Inside : (low high size p : ℕ) → Type 0
Inside low high size p = (low ≤ p) × (p + size ≤ high)

pub Apart-Far : (size p a q : ℕ) → 8 ≤ size → p ≤ a → a + 8 ≤ p + size → Apart size p q → Far a q
Apart-Far size p a q positive low high (inl h) = inl (omega arith)
Apart-Far size p a q positive low high (inr h) = inr (omega arith)

-- No header of an object apart from another one overlaps a word in it.
pub Apart-FarFrom :
    (size p a : ℕ) (xs : List ℕ)
    → 8 ≤ size
    → p ≤ a
    → a + 8 ≤ p + size
    → All (Apart size p) xs
    → FarFrom a xs
Apart-FarFrom size p a [] positive low high apart = tt
Apart-FarFrom size p a (x ∷ xs) positive low high (apart, others) = (
  Apart-Far size p a x positive low high apart,
  Apart-FarFrom size p a xs positive low high others,
)

-- The words at the objects are the address of their cache.
abbrev pub HeaderIs : Memory → ℕ → ℕ → Type 0
HeaderIs words cache p = words p ≡ cache

-- A store inside one object keeps the headers of the others.
pub headers_store :
    (words : Memory) (cache size p a v : ℕ) (xs : List ℕ)
    → 8 ≤ size
    → p ≤ a
    → a + 8 ≤ p + size
    → All (Apart size p) xs
    → All (HeaderIs words cache) xs
    → All (HeaderIs (store words a v) cache) xs
headers_store words cache size p a v xs positive low high =
    All-zip (Apart size p) xs (λ q apart header.
      store-Far words a v q (Apart-Far size p a q positive low high apart) ∙ header)

pub headers_new :
    (words : Memory) (cache size a p : ℕ) (xs : List ℕ)
    → a ≡ p
    → 8 ≤ size
    → All (Apart size p) xs
    → All (HeaderIs words cache) xs
    → All (HeaderIs (store words a cache) cache) (p ∷ xs)
headers_new words cache size a p xs at positive apart headers = (
  rw at (store_same words p cache),
  headers_store words cache size p a cache xs positive (omega arith) (omega arith) apart headers,
)

-- What lies behind all objects is apart from them.
pub Inside-Apart :
    (low high size p : ℕ) (xs : List ℕ)
    → high ≤ p
    → All (Inside low high size) xs
    → All (Apart size p) xs
Inside-Apart low high size p xs behind =
    All-map (Inside low high size) xs (λ q (above, below). inr (omega arith))

pub Inside-more :
    (low high high' size : ℕ) (xs : List ℕ)
    → high ≤ high'
    → All (Inside low high size) xs
    → All (Inside low high' size) xs
Inside-more low high high' size xs more =
    All-map (Inside low high size) xs (λ q (above, below). (above, omega arith))

-- A slab with only its root cache, whose objects have `size` bytes, headers included, and begin at `first`:
-- `taken` of at most `room` objects have been handed out at least once; `live` are in use, with the cache in
-- their headers, and `free` on the free list, none of them over another. The slab either still has its cache
-- as the first free one, and then it has room, or has none.
pub record IsSlab (cache size first room : ℕ) (alloc : SlabAlloc) (heap : Heap) (live free : List ℕ)
    (taken : ℕ) : Type 0 where
  pub alone_before : (heap.caches cache).prev_cache ≡ null
  pub alone_behind : (heap.caches cache).next_cache ≡ null
  pub is_root : (heap.caches cache).root_cache ≡ true
  pub of_size : alloc.objsize ≡ size
  pub at_most : (heap.caches cache).max_objects ≡ room
  pub at_place : (heap.caches cache).unmanaged_begin ≡ first + taken * size
  pub counted : (heap.caches cache).allocated_objects ≡ length live
  pub listed : Chain heap.words (heap.caches cache).freelist free
  pub total : taken ≡ length live + length free
  pub within_room : taken ≤ room
  pub first_free :
      (alloc.first_free_cache ≡ null) ⊎ ((alloc.first_free_cache ≡ cache) × (length live < room))
  pub live_inside : All (Inside first (first + taken * size) size) live
  pub free_inside : All (Inside first (first + taken * size) size) free
  pub live_apart : EachPair (Apart size) live
  pub free_apart : EachPair (Apart size) free
  pub across : All (λ p. All (Apart size p) free) live
  pub headers : All (HeaderIs heap.words cache) live
