-- ===== src/PenguinMalloc/Buddy/Release.antt =====
-- `buddy_free`: it always ends with a block on a free list, and which block that is.
use doomsday_kernel_modules.Base.{
  ℕ, zero, suc, ◌+◌, ◌*◌, ◌/◌, ◌^◌, ◌≤◌, ◌<◌, ◌≡◌, refl, Bool, true, false, Option, some, List,
  arith, leb, length, get_elem?, set, get_elem?-lt, get_elem?-set_self, bit_xor, test_bit,
}
use doomsday_kernel_modules.PenguinMalloc.BuddyUtil.{
  Bitmap, buddy_get, buddy_unset, to_pointer, to_index, mask_index, bit_index,
}
use doomsday_kernel_modules.PenguinMalloc.BuddyUtil.Position.{buddy_sibling}
use doomsday_kernel_modules.PenguinMalloc.BuddyUtil.Bitmap.{
  IsBytes, IsBlock, byte_at_in, buddy_set-some, buddy_unset-some,
}
use doomsday_kernel_modules.PenguinMalloc.Freelist.{Memory, freelist_push}
use doomsday_kernel_modules.PenguinMalloc.Config.{
  sub_size, to_int, int_to_size, half_int, to_int_small, int_to_size_small, half_int_small,
}
use doomsday_kernel_modules.PenguinMalloc.Buddy.{
  BuddyAlloc, push_at, climb, merge_step, merge_loop, buddy_free,
}
use doomsday_kernel_modules.PenguinMalloc.Buddy.Above.{
  IsAbove, IsAbove-self, IsAbove-parent, IsAbove-trans, half_in, index_small,
}
use doomsday_kernel_modules.PenguinMalloc.Buddy.Step.{IsBlock-sized}

-- A bitmap with a bit for every block down to layer `k`.
pub record IsMap (k : ℕ) (bits : Bitmap) : Type 0 where
  pub bytes : IsBytes bits
  pub bits_in : 2 ^ (k + 1) ≤ 8 * length bits

module _ (k : ℕ) (small : k ≤ 31) where
  as_size : (l i : ℕ) → l ≤ k → i < 2 ^ l → int_to_size i ≡ i
  as_size l i le lt = int_to_size_small i (index_small k l i small le lt)

  half : (l i : ℕ) → l ≤ k → i < 2 ^ l → half_int i ≡ i / 2
  half l i le lt = half_int_small i (index_small k l i small le lt)

  blk : (bits : Bitmap) → IsMap k bits → (l i : ℕ) → l ≤ k → i < 2 ^ l → IsBlock bits l i
  blk bits is l i le lt = IsBlock-sized k l i bits is.bits_in le lt

  get_some :
      (bits : Bitmap)
      → IsMap k bits
      → (l i : ℕ) → l ≤ k
      → i < 2 ^ l
      → (b : Bool) × (buddy_get bits l i ≡ some b)
  unfolding buddy_get
  get_some bits is l i le lt =
      let (byte, here) = get_elem?-lt bits (mask_index l i) (blk bits is l i le lt).in_bitmap in
      (test_bit byte (bit_index l i), rw (byte_at_in bits l i lt, here))

  -- The climb from a block ends, at the block itself or at one that holds it.
  abbrev pub Climbs : Bitmap → ℕ → ℕ → Type 0
  Climbs bits l i = (m : ℕ) × (j : ℕ) × (climb bits l i ≡ some (m, j)) × IsAbove l i m j

  climb_round :
      (bits : Bitmap) (l i : ℕ)
      → suc l ≤ k
      → i < 2 ^ suc l
      → (b : Bool) × (buddy_get bits (suc l) i ≡ some b)
      → Climbs bits l (i / 2)
      → Climbs bits (suc l) i
  unfolding climb
  climb_round bits l i le lt (true, e) (m, j, run, above) = (
    m,
    j,
    rw (as_size (suc l) i le lt, e, half (suc l) i le lt) run,
    IsAbove-parent l i m j above,
  )
  climb_round bits l i le lt (false, e) up =
      (suc l, i, rw (as_size (suc l) i le lt, e), IsAbove-self (suc l) i lt)

  pub climb_ends : (bits : Bitmap) → IsMap k bits → (l i : ℕ) → l ≤ k → i < 2 ^ l → Climbs bits l i
  unfolding climb
  climb_ends bits is zero i le lt = (0, i, refl, IsAbove-self 0 i lt)
  climb_ends bits is (suc l) i le lt =
      climb_round bits l i le lt (get_some bits is (suc l) i le lt)
        (climb_ends bits is l (i / 2) (omega arith) (half_in l i lt))

  -- The merging from a block ends, at the block itself or at one that holds it.
  abbrev Merges : Bitmap → ℕ → ℕ → Type 0
  Merges bits l i =
      (out : Bitmap) × (m : ℕ) × (j : ℕ) × (merge_loop bits l i ≡ some (out, m, j))
      × IsAbove l i m j
      × IsMap k out

  merge_step_runs :
      (bits : Bitmap)
      → IsMap k bits
      → (l i : ℕ) → suc l ≤ k
      → i < 2 ^ suc l
      → (out : Bitmap) × (merge_step bits l i ≡ some out) × IsMap k out
  unfolding merge_step
  merge_step_runs bits is l i le lt =
      let sib : bit_xor i 1 < 2 ^ suc l = (buddy_sibling l i lt).0 in
      let (b₁, run₁, len₁, bytes₁) =
        buddy_set-some bits (suc l) i (blk bits is (suc l) i le lt) is.bytes in
      let is₁ : IsMap k b₁ = record { bytes = bytes₁; bits_in = omega (arith, is.bits_in) } in
      let (b₂, run₂, len₂, bytes₂) =
        buddy_set-some b₁ (suc l) (bit_xor i 1) (blk b₁ is₁ (suc l) (bit_xor i 1) le sib) bytes₁ in
      let is₂ : IsMap k b₂ = record { bytes = bytes₂; bits_in = omega (arith, is₁.bits_in) } in
      let (b₃, run₃, len₃, bytes₃) =
        buddy_unset-some b₂ l (i / 2) (blk b₂ is₂ l (i / 2) (omega arith) (half_in l i lt))
          bytes₂ in
      (
        b₃,
        rw (
          as_size (suc l) i le lt,
          as_size (suc l) (bit_xor i 1) le sib,
          half (suc l) i le lt,
          as_size l (i / 2) (omega arith) (half_in l i lt),
          run₁,
          run₂,
          run₃,
        ),
        record { bytes = bytes₃; bits_in = omega (arith, is₂.bits_in) },
      )

  sibling : (l i : ℕ) → suc l ≤ k → i < 2 ^ suc l → int_to_size (bit_xor i 1) ≡ bit_xor i 1
  sibling l i le lt = as_size (suc l) (bit_xor i 1) le (buddy_sibling l i lt).0

  merge_round :
      (bits : Bitmap) (l i : ℕ)
      → suc l ≤ k
      → IsMap k bits
      → i < 2 ^ suc l
      → (b : Bool) × (buddy_get bits (suc l) (bit_xor i 1) ≡ some b)
      → (merged : Bitmap) × (merge_step bits l i ≡ some merged) × Merges merged l (i / 2)
      → Merges bits (suc l) i
  unfolding merge_loop
  merge_round bits l i le is lt (true, e) up =
      (bits, suc l, i, rw (sibling l i le lt, e), IsAbove-self (suc l) i lt, is)
  merge_round bits l i le is lt (false, e) (merged, step, up) =
      let (out, m, j, run, above, is') = up in
      (
        out,
        m,
        j,
        rw (sibling l i le lt, e, step, half (suc l) i le lt) run,
        IsAbove-parent l i m j above,
        is',
      )

  merge_ends : (bits : Bitmap) → IsMap k bits → (l i : ℕ) → l ≤ k → i < 2 ^ l → Merges bits l i
  unfolding merge_loop
  merge_ends bits is zero i le lt = (bits, 0, i, refl, IsAbove-self 0 i lt, is)
  merge_ends bits is (suc l) i le lt =
      let (merged, step, is') = merge_step_runs bits is l i le lt in
      merge_round bits l i le is lt
        (get_some bits is (suc l) (bit_xor i 1) le (buddy_sibling l i lt).0)
        (merged, step, merge_ends merged is' l (i / 2) (omega arith) (half_in l i lt))

-- The block that `buddy_free` put first on a list: block `block` of layer `top`.
pub record Freed (alloc : BuddyAlloc) (m j : ℕ) (out : Option (BuddyAlloc × Memory)) : Type 0 where
  pub alloc' : BuddyAlloc
  pub mem' : Memory
  pub top : ℕ
  pub block : ℕ
  pub run : out ≡ some (alloc', mem')
  pub above : IsAbove m j top block
  pub listed :
      get_elem? alloc'.freelist top ≡ some (to_pointer alloc.begin top block alloc.root_block_size)

-- An allocator whose layers, lists and bitmap reach layer `k`, at most 31, and an address in block `leaf` of it.
pub record CanFree (alloc : BuddyAlloc) (k ptr leaf : ℕ) : Type 0 where
  pub layers : alloc.buddy_layers ≡ suc k
  pub int_sized : k ≤ 31
  pub map : IsMap k alloc.bitmap
  pub lists : k < length alloc.freelist
  pub leaf_at : to_index alloc.begin k ptr alloc.root_block_size ≡ some leaf
  pub leaf_in : leaf < 2 ^ k

push_at_runs :
    (lists : List ℕ) (mem : Memory) (l block : ℕ) {head : ℕ}
    → get_elem? lists l ≡ some head
    → push_at lists mem l block ≡ some (set lists l block, (freelist_push mem (some head) block).1)
unfolding push_at freelist_push
push_at_runs lists mem l block at = rw at

module _ (alloc : BuddyAlloc) (mem : Memory) (k ptr leaf : ℕ) (can : CanFree alloc k ptr leaf) where
  free_run :
      (m j top block : ℕ) (b₁ b₂ : Bitmap) {lists : List ℕ} {mem' : Memory}
      → climb alloc.bitmap k leaf ≡ some (m, j)
      → int_to_size j ≡ j
      → buddy_unset alloc.bitmap m j ≡ some b₁
      → merge_loop b₁ m j ≡ some (b₂, top, block)
      → int_to_size block ≡ block
      → push_at alloc.freelist mem top (to_pointer alloc.begin top block alloc.root_block_size)
        ≡ some (lists, mem')
      → buddy_free alloc mem ptr ≡ some (record alloc { bitmap = b₂; freelist = lists }, mem')
  unfolding buddy_free
  free_run m j top block b₁ b₂ climbed own unset merged same pushed =
      let sized = can.int_sized in
      let last : sub_size alloc.buddy_layers 1 ≡ k = omega (arith, can.layers) in
      let as_int : to_int k ≡ k = to_int_small k (omega arith) in
      let below : leb (2 ^ 31) k ≡ false = ground arith in
      let leaf_int : to_int leaf ≡ leaf =
        to_int_small leaf (index_small k k leaf sized (omega arith) can.leaf_in) in
      rw (last, as_int, below, can.leaf_at, leaf_int, climbed, own, unset, merged, same, pushed)

  -- Once the climb has ended at block `j` of layer `m`, that block or one that holds it is freed.
  pub Freed-from :
      (m j : ℕ)
      → climb alloc.bitmap k leaf ≡ some (m, j)
      → m ≤ k
      → j < 2 ^ m
      → Freed alloc m j (buddy_free alloc mem ptr)
  Freed-from m j climbed le lt =
      let here = IsBlock-sized k m j alloc.bitmap can.map.bits_in le lt in
      let (b₁, run₁, len₁, bytes₁) = buddy_unset-some alloc.bitmap m j here can.map.bytes in
      let is₁ : IsMap k b₁ = record { bytes = bytes₁; bits_in = omega (arith, can.map.bits_in) } in
      let (b₂, top, block, run₂, above, is₂) = merge_ends k can.int_sized b₁ is₁ m j le lt in
      let (head, at) = get_elem?-lt alloc.freelist top (omega (arith, above.layer_le, can.lists)) in
      let freed = to_pointer alloc.begin top block alloc.root_block_size in
      record {
        alloc' = record alloc { bitmap = b₂; freelist = set alloc.freelist top freed };
        mem' = (freelist_push mem (some head) freed).1;
        top = top;
        block = block;
        run =
            free_run m j top block b₁ b₂ climbed (as_size k can.int_sized m j le lt) run₁ run₂
              (as_size k can.int_sized top block (omega (arith, above.layer_le)) above.in_layer)
              (push_at_runs alloc.freelist mem top freed at);
        above = above;
        listed =
            get_elem?-set_self alloc.freelist top freed (omega (arith, above.layer_le, can.lists));
      }

  -- For an allocator whose layers, lists and bitmap reach layer k, at most 31, and an address in a block of
  -- layer k: `buddy_free` ends without an access past the bitmap or the lists, and puts a block that holds
  -- the address first on the list of its layer.
  pub buddy_free_some : Freed alloc k leaf (buddy_free alloc mem ptr)
  buddy_free_some =
      let (m, j, climbed, above) =
        climb_ends k can.int_sized alloc.bitmap can.map k leaf (omega arith) can.leaf_in in
      let freed = Freed-from m j climbed above.layer_le above.in_layer in
      record {
        alloc' = freed.alloc';
        mem' = freed.mem';
        top = freed.top;
        block = freed.block;
        run = freed.run;
        above = IsAbove-trans k leaf m j freed.top freed.block above freed.above;
        listed = freed.listed;
      }
