-- ===== src/PenguinMalloc/Buddy/Sequence.antt =====
-- Any sequence of allocs from the arena that `buddy_init` leaves.
use doomsday_kernel_modules.Base.{
  ◌>>=◌, ℕ, zero, suc, ◌*◌, ◌^◌, ◌≡◌, ◌≢◌, ◌<◌, ◌≤◌, inl, inr, refl, sym, ◌∙◌, Option, none, some,
  List, [], ◌∷◌, All, EachPair, arith, get_elem?, ◌==◌, if◌then◌else◌, ==_of_ne,
}
use doomsday_kernel_modules.PenguinMalloc.Config.{page_size}
use doomsday_kernel_modules.PenguinMalloc.BuddyUtil.Blocks.{IsArena, to_pointer_sum}
use doomsday_kernel_modules.PenguinMalloc.Freelist.{Memory, null}
use doomsday_kernel_modules.PenguinMalloc.Freelist.Chain.{Chain, nil, cons}
use doomsday_kernel_modules.PenguinMalloc.Buddy.{BuddyAlloc, Halves, buddy_alloc}
use doomsday_kernel_modules.PenguinMalloc.Buddy.Step.{IsSized}
use doomsday_kernel_modules.PenguinMalloc.Buddy.Pool.{Off, bytes, Places, OffBlock, InArena, IsPool}
use doomsday_kernel_modules.PenguinMalloc.Buddy.Allots.{allocator, Allots, buddy_alloc-Allots}

-- The allocs of these powers of two pages one after the other, with the blocks that have been given.
abbrev pub buddy_allocs : List ℕ → BuddyAlloc → Memory → List (ℕ × ℕ) → Option (List (ℕ × ℕ))
buddy_allocs [] alloc mem used = some used
buddy_allocs (j ∷ js) alloc mem used = buddy_alloc alloc mem (2 ^ j) >>= λ (ptr, alloc', mem').
    buddy_allocs js alloc' mem' (if ptr == null then used else ((ptr, 2 ^ j * page_size) ∷ used))

-- Every alloc has returned; the blocks do not overlap and lie in the arena.
abbrev pub Separate : (begin k : ℕ) → Option (List (ℕ × ℕ)) → Type 0
Separate begin k none = ⊥
Separate begin k (some used) = EachPair OffBlock used × All (InArena begin k) used

-- The root block is free, and no other one; the bitmap and the lists reach layer `k`.
pub record IsFresh (begin k : ℕ) (s : Halves) : Type 0 where
  pub sized : IsSized k s
  pub root : get_elem? s.lists 0 ≡ some begin
  pub others : (l : ℕ) → l < k → get_elem? s.lists (suc l) ≡ some null
  pub alone : s.words begin ≡ null

abbrev pub only_root : ℕ → ℕ → List ℕ
only_root begin zero = begin ∷ []
only_root begin (suc l) = []

module _ (begin k layers blocks : ℕ) (arena : IsArena begin (2 ^ k)) (not_null : 1 ≤ begin)
    (small : k ≤ 63) where
  pub fresh-IsPool : (s : Halves) → IsFresh begin k s → IsPool begin k s (only_root begin) []
  fresh-IsPool s fresh = record {
    sized = fresh.sized;
    heads = heads;
    placed = placed;
    pairs = pairs;
    across = across;
    beside = tt;
    used_pairs = tt;
    used_inside = tt;
  }
    where
      heads :
          (l : ℕ)
          → l ≤ k
          → (h : ℕ) × (get_elem? s.lists l ≡ some h) × Chain s.words h (only_root begin l)
      heads zero le = (begin, fresh.root, cons (omega arith) fresh.alone tt nil)
      heads (suc l) le = (null, fresh.others l (omega arith), nil)

      placed : (l : ℕ) → l ≤ k → All (Places begin k l) (only_root begin l)
      placed zero le =
          ((0, omega arith, sym (to_pointer_sum arena 0 0 (omega arith) ∙ omega arith)), tt)
      placed (suc l) le = tt

      pairs :
          (l : ℕ) → l ≤ k → EachPair (λ p q. Off p (bytes k l) q (bytes k l)) (only_root begin l)
      pairs zero le = (tt, tt)
      pairs (suc l) le = tt

      across :
          (l m : ℕ)
          → l ≤ k
          → m ≤ k
          → l ≢ m
          → All
              (λ p. All (λ q. Off p (bytes k l) q (bytes k m)) (only_root begin m))
              (only_root begin l)
      across zero zero a b ne = absurd (ne refl)
      across zero (suc m) a b ne = (tt, tt)
      across (suc l) m a b ne = tt

  allocs-Separate :
      (js : List ℕ) (s : Halves) (free : ℕ → List ℕ) (used : List (ℕ × ℕ))
      → All (λ j. j ≤ k) js
      → IsPool begin k s free used
      → Separate begin k (buddy_allocs js (allocator begin k layers blocks s) s.words used)
  allocs-Separate [] s free used fit pool = (pool.used_pairs, pool.used_inside)
  allocs-Separate (j ∷ js) s free used (fits, fit) pool =
      elim (buddy_alloc (allocator begin k layers blocks s) s.words (2 ^ j))
          as (λ r.
            Allots begin k layers blocks s free used j r
            → Separate begin k (
                r >>= λ (ptr, alloc', mem').
                buddy_allocs js alloc' mem'
                  (if ptr == null then used else ((ptr, 2 ^ j * page_size) ∷ used)))) [
                    | none ↦ λ impossible. impossible
                    | some (ptr, alloc', mem') ↦ λ allots. elim allots [
                      | inl (is_null, same, words, empty) ↦
                          rw (is_null, same, words) (allocs-Separate js s free used fit pool)
                      | inr (ne, was_free, (s', free', same, words, pool')) ↦
                          rw (==_of_ne ne, same, words)
                            (allocs-Separate js s' free' ((ptr, 2 ^ j * page_size) ∷ used) fit
                              pool')
                    ]
                  ]
        (buddy_alloc-Allots begin k layers blocks arena not_null small s free used j fits pool)

  -- In an arena at an address that is not NULL, below 2^64 with its root block of 2^k pages, k at most 63,
  -- where the root block is free and the bitmap and the free lists reach the layer of single pages:
  -- any sequence of allocs of 2^j pages, each j at most k, returns every time; the blocks that are given,
  -- each of as many pages as were asked for, do not overlap and lie in the arena.
  pub buddy_allocs-Separate :
      (js : List ℕ) (s : Halves)
      → All (λ j. j ≤ k) js
      → IsFresh begin k s
      → Separate begin k (buddy_allocs js (allocator begin k layers blocks s) s.words [])
  buddy_allocs-Separate js s fit fresh =
      allocs-Separate js s (only_root begin) [] fit (fresh-IsPool s fresh)
