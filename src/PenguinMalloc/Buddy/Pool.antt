-- ===== src/PenguinMalloc/Buddy/Pool.antt =====
-- The free blocks of a buddy allocator, layer by layer, and the blocks in use.
use doomsday_kernel_modules.Base.{
  ℕ, ◌+◌, ◌-◌, ◌*◌, ◌^◌, ◌≡◌, ◌≢◌, ◌<◌, ◌≤◌, ◌⊎◌, inl, inr, refl, some, List, [], ◌∷◌, All,
  EachPair, arith, get_elem?, ℕ_discrete, ◌==◌, if◌then◌else◌, ==_refl, ==_of_ne,
}
use doomsday_kernel_modules.PenguinMalloc.Config.{page_size}
use doomsday_kernel_modules.PenguinMalloc.Util.Powers.{two-pow-pos}
use doomsday_kernel_modules.PenguinMalloc.BuddyUtil.{block_size, to_pointer}
use doomsday_kernel_modules.PenguinMalloc.BuddyUtil.Blocks.{block_size_pow}
use doomsday_kernel_modules.PenguinMalloc.Freelist.Chain.{Far, Chain, FarFrom}
use doomsday_kernel_modules.PenguinMalloc.Buddy.{Halves}
use doomsday_kernel_modules.PenguinMalloc.Buddy.Step.{IsSized}

-- The `s` bytes at `p` and the `t` bytes at `q` do not overlap.
abbrev pub Off : (p s q t : ℕ) → Type 0
Off p s q t = (p + s ≤ q) ⊎ (q + t ≤ p)

pub Off-sym : (p s q t : ℕ) → Off p s q t → Off q t p s
Off-sym p s q t (inl h) = inr h
Off-sym p s q t (inr h) = inl h

-- A part of the one does not overlap the other.
pub Off-part : (p s q t p' s' : ℕ) → p ≤ p' → p' + s' ≤ p + s → Off p s q t → Off p' s' q t
Off-part p s q t p' s' low high (inl h) = inl (omega arith)
Off-part p s q t p' s' low high (inr h) = inr (omega arith)

Off-Far : (p s q t : ℕ) → 8 ≤ s → 8 ≤ t → Off p s q t → Far p q
Off-Far p s q t hs ht (inl h) = inl (omega arith)
Off-Far p s q t hs ht (inr h) = inr (omega arith)

pub Off-FarFrom :
    (p s t : ℕ) (qs : List ℕ) → 8 ≤ s → 8 ≤ t → All (λ q. Off p s q t) qs → FarFrom p qs
Off-FarFrom p s t [] hs ht off = tt
Off-FarFrom p s t (q ∷ qs) hs ht (one, others) =
    (Off-Far p s q t hs ht one, Off-FarFrom p s t qs hs ht others)

-- The bytes of a block of a layer, under a root block of 2^k pages.
abbrev pub bytes : ℕ → ℕ → ℕ
bytes k layer = block_size layer (2 ^ k) * page_size

pub bytes_positive : (k layer : ℕ) → layer ≤ k → 0 < bytes k layer
bytes_positive k layer fits =
    let some_pages : 0 < block_size layer (2 ^ k) =
      rw (block_size_pow k layer fits) (two-pow-pos (k - layer)) in
    omega arith

-- A block holds at least one word.
pub bytes_word : (k layer : ℕ) → layer ≤ k → 8 ≤ bytes k layer
bytes_word k layer fits =
    let some_pages : 0 < block_size layer (2 ^ k) =
      rw (block_size_pow k layer fits) (two-pow-pos (k - layer)) in
    omega arith

abbrev pub Places : (begin k layer p : ℕ) → Type 0
Places begin k layer p = (i : ℕ) × (i < 2 ^ layer) × (p ≡ to_pointer begin layer i (2 ^ k))

-- The lists of the layers, with a new list for one of them.
unfoldable pub relist : (ℕ → List ℕ) → ℕ → List ℕ → ℕ → List ℕ
relist lists layer new j = if j == layer then new else lists j

module _ (lists : ℕ → List ℕ) (layer : ℕ) (new : List ℕ) where
  pub relist_same : relist lists layer new layer ≡ new
  unfolding relist
  relist_same = rw (==_refl layer) refl

  pub relist_other : (j : ℕ) → j ≢ layer → relist lists layer new j ≡ lists j
  unfolding relist
  relist_other j ne = rw (==_of_ne ne) refl

  -- What holds of the new list and of the others holds of all.
  pub relist-All :
      (P : List ℕ → Type 0) (j : ℕ)
      → (j ≡ layer → P new)
      → (j ≢ layer → P (lists j))
      → P (relist lists layer new j)
  relist-All P j same other = elim (ℕ_discrete j layer) [
    | yes e ↦ rw (e, relist_same) (same e)
    | no ne ↦ rw (relist_other j ne) (other ne)
  ]

-- A block with its bytes does not overlap the free blocks of the layers down to `k`.
abbrev pub Beside : (k : ℕ) → (ℕ → List ℕ) → ℕ × ℕ → Type 0
Beside k free b = (l : ℕ) → l ≤ k → All (λ q. Off b.0 b.1 q (bytes k l)) (free l)

abbrev pub OffBlock : ℕ × ℕ → ℕ × ℕ → Type 0
OffBlock b c = Off b.0 b.1 c.0 c.1

abbrev pub InArena : (begin k : ℕ) → ℕ × ℕ → Type 0
InArena begin k b = (begin ≤ b.0) × (b.0 + b.1 ≤ begin + 2 ^ k * page_size)

-- The lists of the layers hold the blocks `free`, each of its layer, and `used` are blocks of so many bytes;
-- none of them overlaps another one, and those in use lie in the arena.
pub record IsPool (begin k : ℕ) (s : Halves) (free : ℕ → List ℕ) (used : List (ℕ × ℕ))
    : Type 0 where
  pub sized : IsSized k s
  pub heads : (l : ℕ) → l ≤ k → (h : ℕ) × (get_elem? s.lists l ≡ some h) × Chain s.words h (free l)
  pub placed : (l : ℕ) → l ≤ k → All (Places begin k l) (free l)
  pub pairs : (l : ℕ) → l ≤ k → EachPair (λ p q. Off p (bytes k l) q (bytes k l)) (free l)
  pub across :
      (l m : ℕ)
      → l ≤ k
      → m ≤ k
      → l ≢ m
      → All (λ p. All (λ q. Off p (bytes k l) q (bytes k m)) (free m)) (free l)
  pub beside : All (Beside k free) used
  pub used_pairs : EachPair OffBlock used
  pub used_inside : All (InArena begin k) used
