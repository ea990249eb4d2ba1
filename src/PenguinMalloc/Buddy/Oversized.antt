-- ===== src/PenguinMalloc/Buddy/Oversized.antt =====
-- `buddy_free` of a block whose own bit and whose leftmost descendants' bits are set.
use native.Mathlib.Nat.{pow-suc, mul-one, add-zero, add-suc}
use mathlib.Core.Path.{ap₂}
use doomsday_kernel_modules.Base.{
  ℕ, zero, suc, ◌+◌, ◌*◌, ◌/◌, ◌^◌, ◌≤◌, ◌<◌, ◌≡◌, ◌∙◌, ap, true, some, arith,
}
use doomsday_kernel_modules.PenguinMalloc.BuddyUtil.{Bitmap, buddy_get}
use doomsday_kernel_modules.PenguinMalloc.Freelist.{Memory}
use doomsday_kernel_modules.PenguinMalloc.Buddy.{BuddyAlloc, climb, buddy_free}
use doomsday_kernel_modules.PenguinMalloc.Buddy.Release.{Freed, CanFree, climb_ends, Freed-from}
use doomsday_kernel_modules.PenguinMalloc.Buddy.Above.{IsAbove-trans, half_in, index_small}
use doomsday_kernel_modules.PenguinMalloc.Config.{
  int_to_size, half_int, int_to_size_small, half_int_small,
}

-- The bits of a block and of its leftmost descendants down to `n` layers below it are set.
abbrev pub IsMarked : Bitmap → ℕ → ℕ → ℕ → Type 0
IsMarked bits n layer index =
    (j : ℕ) → j ≤ n → buddy_get bits (layer + j) (index * 2 ^ j) ≡ some true

climb_marked :
    (bits : Bitmap) (n l index : ℕ)
    → index * 2 ^ n < 2 ^ 31
    → IsMarked bits n (suc l) index
    → climb bits (suc l + n) (index * 2 ^ n) ≡ climb bits l (index / 2)
unfolding climb
climb_marked bits zero l index small marked =
    let own : buddy_get bits (suc l) index ≡ some true =
      rw (← add-zero (suc l), ← mul-one index) (marked 0 (omega arith)) in
    let size : int_to_size index ≡ index = int_to_size_small index (omega arith) in
    let halved : half_int index ≡ index / 2 = half_int_small index (omega arith) in
    ap₂ (climb bits) (add-zero (suc l)) (mul-one index) ∙ rw (size, own, halved)
climb_marked bits (suc n) l index small marked =
    let below : buddy_get bits (suc (suc l + n)) (index * 2 ^ suc n) ≡ some true =
      rw (← add-suc) (marked (suc n) (omega arith)) in
    let half : index * 2 ^ suc n / 2 ≡ index * 2 ^ n =
      omega (arith, ap (λ (t : ℕ). index * t) (pow-suc 2 n)) in
    rw add-suc (
      rw (int_to_size_small _ small, below)
        (ap (climb bits (suc l + n)) (half_int_small (index * 2 ^ suc n) small ∙ half)
          ∙ climb_marked bits n l index (omega arith) (λ j le. marked j (omega arith))))

-- In an allocator whose layers, lists and bitmap reach layer l + 1 + n, at most 31, freeing the address of a
-- block of layer l + 1 whose own bit and leftmost descendants' bits are set does not free that
-- block: the block that goes to a free list is its parent or one that holds the parent, so it holds
-- the buddy of the freed block too, whatever the buddy is used for.
pub buddy_free_oversized :
    (alloc : BuddyAlloc) (mem : Memory) (n l index ptr : ℕ)
    → CanFree alloc (suc l + n) ptr (index * 2 ^ n)
    → index < 2 ^ suc l
    → IsMarked alloc.bitmap n (suc l) index
    → Freed alloc l (index / 2) (buddy_free alloc mem ptr)
buddy_free_oversized alloc mem n l index ptr can lt marked =
    let (m, j, climbed, above) =
      climb_ends (suc l + n) can.int_sized alloc.bitmap can.map l (index / 2) (omega arith)
        (half_in l index lt) in
    let freed =
      Freed-from alloc mem (suc l + n) ptr (index * 2 ^ n) can m j
        (climb_marked alloc.bitmap n l index
            (index_small (suc l + n) (suc l + n) (index * 2 ^ n) can.int_sized (omega arith)
              can.leaf_in)
            marked
          ∙ climbed)
        (omega (arith, above.layer_le)) above.in_layer in
    record {
      alloc' = freed.alloc';
      mem' = freed.mem';
      top = freed.top;
      block = freed.block;
      run = freed.run;
      above = IsAbove-trans l (index / 2) m j freed.top freed.block above freed.above;
      listed = freed.listed;
    }
