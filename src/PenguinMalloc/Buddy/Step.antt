-- ===== src/PenguinMalloc/Buddy/Step.antt =====
-- One round of the splitting loop of `buddy_alloc`, on a bitmap and lists that reach it.
use native.Mathlib.Nat.{pow-suc, pow-le-pow_right}
use doomsday_kernel_modules.PenguinMalloc.Util.Powers.{two-pow-add}
use doomsday_kernel_modules.Base.{
  ℕ, suc, ◌+◌, ◌*◌, ◌^◌, ◌≤◌, ◌<◌, ◌≡◌, ◌≢◌, refl, ap, sym, ◌∙◌, Bool, true, false, Option, some,
  arith, ◌==◌, ◌&&◌, if◌then◌else◌, length, get_elem?, set, length-set, get_elem?-lt,
  get_elem?-set_self, get_elem?-set_ne, ==_of_ne,
}
use doomsday_kernel_modules.PenguinMalloc.BuddyUtil.{Bitmap, buddy_get, to_pointer}
use doomsday_kernel_modules.PenguinMalloc.BuddyUtil.Position.{position_heap}
use doomsday_kernel_modules.PenguinMalloc.BuddyUtil.Bitmap.{
  IsBytes, IsBlock, buddy_set-some, buddy_unset-some, buddy_get-buddy_set, buddy_get-buddy_unset,
}
use doomsday_kernel_modules.PenguinMalloc.Freelist.{freelist_push}
use doomsday_kernel_modules.PenguinMalloc.Buddy.{Halves, push_at, split_step}

-- The bitmap has a bit for every block down to layer `k`, and there is a list for each layer.
pub record IsSized (k : ℕ) (s : Halves) : Type 0 where
  pub bytes : IsBytes s.bits
  pub bits_in : 2 ^ (k + 1) ≤ 8 * length s.bits
  pub lists_in : k < length s.lists

-- Every block of the layers down to `k` has its bit in such a bitmap.
pub IsBlock-sized :
    (k l i : ℕ) (bits : Bitmap)
    → 2 ^ (k + 1) ≤ 8 * length bits
    → l ≤ k
    → i < 2 ^ l
    → IsBlock bits l i
IsBlock-sized k l i bits enough le h = record {
  in_layer = h;
  in_bitmap = omega (
    arith,
    position_heap l i h,
    two-pow-add l 1,
    pow-le-pow_right {n = 2} (omega arith) {i = l + 1} {j = k + 1} (omega arith),
  );
}

-- The bits after one block was split: the block and its right child read as set, its left child as
-- clear, and every other block as before.
abbrev pub split_bit : ℕ → ℕ → (ℕ → ℕ → Option Bool) → ℕ → ℕ → Option Bool
split_bit layer index old l i =
    if l == suc layer && (i == index * 2 + 1)
    then some true
    else (if l == suc layer && (i == index * 2)
        then some false
        else (if l == layer && (i == index) then some true else old l i))

some_inj : {a b : ℕ} → some a ≡ some b → a ≡ b
some_inj e = cc

module _ (begin root k layer index : ℕ) (s : Halves) (sized : IsSized k s) (deep : layer < k)
    (h : index < 2 ^ layer) where
  abbrev pub right_block : ℕ
  right_block = to_pointer begin (suc layer) (index * 2 + 1) root

  pub record HasSplit (s' : Halves) : Type 0 where
    pub run : split_step begin root layer index s ≡ some s'
    pub still_sized : IsSized k s'
    pub bits :
        (l i : ℕ)
        → l ≤ k
        → i < 2 ^ l
        → buddy_get s'.bits l i ≡ split_bit layer index (buddy_get s.bits) l i
    pub pushed : get_elem? s'.lists (suc layer) ≡ some right_block
    pub words :
        (head : ℕ)
        → get_elem? s.lists (suc layer) ≡ some head
        → s'.words ≡ (freelist_push s.words (some head) right_block).1
    pub kept : (j : ℕ) → j ≢ suc layer → get_elem? s'.lists j ≡ get_elem? s.lists j

  left_in : index * 2 < 2 ^ suc layer
  left_in = omega (arith, pow-suc 2 layer)

  right_in : index * 2 + 1 < 2 ^ suc layer
  right_in = omega (arith, pow-suc 2 layer)

  blk :
      (bits : Bitmap)
      → length bits ≡ length s.bits
      → (l i : ℕ) → l ≤ k
      → i < 2 ^ l
      → IsBlock bits l i
  blk bits len l i le lt = IsBlock-sized k l i bits (omega (arith, sized.bits_in)) le lt

  pub split_step-HasSplit : (s' : Halves) × HasSplit s'
  unfolding split_step push_at freelist_push
  split_step-HasSplit =
      let here = blk s.bits refl layer index (omega arith) h in
      let (b₁, run₁, len₁, bytes₁) = buddy_set-some s.bits layer index here sized.bytes in
      let left = blk b₁ len₁ (suc layer) (index * 2) deep left_in in
      let (b₂, run₂, len₂, bytes₂) = buddy_unset-some b₁ (suc layer) (index * 2) left bytes₁ in
      let right = blk b₂ (len₂ ∙ len₁) (suc layer) (index * 2 + 1) deep right_in in
      let (b₃, run₃, len₃, bytes₃) = buddy_set-some b₂ (suc layer) (index * 2 + 1) right bytes₂ in
      let (head, at) = get_elem?-lt s.lists (suc layer) (omega (arith, sized.lists_in)) in
      (
        record {
          bits = b₃;
          lists = set s.lists (suc layer) right_block;
          words = (freelist_push s.words (some head) right_block).1;
        },
        record {
          run = rw (run₁, run₂, run₃, at);
          still_sized = record {
            bytes = bytes₃;
            bits_in = omega (arith, sized.bits_in);
            lists_in = omega (arith, sized.lists_in, length-set s.lists (suc layer) right_block);
          };
          bits = λ l i le lt.
              let o₁ = blk s.bits refl l i le lt in
              let o₂ = blk b₁ len₁ l i le lt in
              let o₃ = blk b₂ (len₂ ∙ len₁) l i le lt in
              rw (
                buddy_get-buddy_set b₂ (suc layer) (index * 2 + 1) right bytes₂ l i o₃ run₃,
                buddy_get-buddy_unset b₁ (suc layer) (index * 2) left bytes₁ l i o₂ run₂,
                buddy_get-buddy_set s.bits layer index here sized.bytes l i o₁ run₁,
              );
          pushed =
              get_elem?-set_self s.lists (suc layer) right_block (omega (arith, sized.lists_in));
          words = λ head' at'.
              ap (λ h. (freelist_push s.words (some h) right_block).1) (some_inj (sym at ∙ at'));
          kept = λ j ne. get_elem?-set_ne s.lists right_block (λ e. ne (sym e));
        },
      )

module _ (layer index : ℕ) (old : ℕ → ℕ → Option Bool) where
  pub split_bit_left : split_bit layer index old (suc layer) (index * 2) ≡ some false
  split_bit_left = ground arith

  pub split_bit_right : split_bit layer index old (suc layer) (index * 2 + 1) ≡ some true
  split_bit_right = ground arith

  pub split_bit_self : split_bit layer index old layer index ≡ some true
  split_bit_self = ground arith

  pub split_bit_upper :
      (l i : ℕ)
      → l ≤ layer
      → (l == layer && (i == index)) ≡ false
      → split_bit layer index old l i ≡ old l i
  split_bit_upper l i le other =
      let deeper : (l == suc layer) ≡ false = ==_of_ne (omega arith) in rw (deeper, other)
