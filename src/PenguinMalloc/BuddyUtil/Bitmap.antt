-- ===== src/PenguinMalloc/BuddyUtil/Bitmap.antt =====
-- `buddy_set`, `buddy_unset` and `buddy_get`: a bitmap is a map from blocks to bits.
use doomsday_kernel_modules.Base.{
  ℕ, zero, suc, ◌^◌, ◌<◌, ◌≡◌, refl, arith, Bool, true, false, some, [], ◌∷◌, length, get_elem?,
  set, ltb, ◌==◌, ◌&&◌, if◌then◌else◌, test_bit, set_bit, clear_bit, test_bit-set_bit,
  test_bit-clear_bit, length-set, get_elem?-lt, ==_refl, ==_of_ne, ◌≢◌, ℕ_discrete, Bool-cases, inl,
  inr, get_elem?-set_self, get_elem?-set_ne,
}
use doomsday_kernel_modules.PenguinMalloc.BuddyUtil.{
  Bitmap, mask_index, bit_index, byte_at, buddy_set, buddy_unset, buddy_get,
}
use doomsday_kernel_modules.PenguinMalloc.BuddyUtil.Position.{position_heap, position_injective}

-- Every element is a byte.
abbrev pub IsBytes : Bitmap → Type 0
IsBytes [] = Unit
IsBytes (b ∷ bs) = (b < 256) × IsBytes bs

-- A block of the tree whose byte lies inside the bitmap.
pub record IsBlock (bitmap : Bitmap) (layer index : ℕ) : Type 0 where
  pub in_layer : index < 2 ^ layer
  pub in_bitmap : mask_index layer index < length bitmap

some_inj : {a b : Bitmap} → some a ≡ some b → a ≡ b
some_inj e = cc

IsBytes-get : (bs : Bitmap) (m : ℕ) {b : ℕ} → IsBytes bs → get_elem? bs m ≡ some b → b < 256
IsBytes-get [] m h e = cc
IsBytes-get (c ∷ bs) zero h e = ground arith
IsBytes-get (c ∷ bs) (suc m) h e = IsBytes-get bs m h.1 e

IsBytes-set : (bs : Bitmap) (m b : ℕ) → b < 256 → IsBytes bs → IsBytes (set bs m b)
IsBytes-set [] m b lt h = h
IsBytes-set (c ∷ bs) zero b lt h = (lt, h.1)
IsBytes-set (c ∷ bs) (suc m) b lt h = (h.0, IsBytes-set bs m b lt h.1)

pub byte_at_in :
    (bitmap : Bitmap) (layer index : ℕ)
    → index < 2 ^ layer
    → byte_at bitmap layer index ≡ get_elem? bitmap (mask_index layer index)
unfolding byte_at
byte_at_in bitmap layer index h =
    let small = (position_heap layer index h).1 in
    let test : ltb (bit_index layer index) 64 ≡ true = ground arith in rw test refl

-- Reading the bit of a block after the byte that holds the bit of another was replaced.
module _ (bitmap : Bitmap) (layer index : ℕ) (blk : IsBlock bitmap layer index) (new : ℕ) (v : Bool)
    {byte : ℕ} (here : get_elem? bitmap (mask_index layer index) ≡ some byte)
    (law : (j : ℕ)
      → j < 8
      → test_bit new j ≡ (if bit_index layer index == j then v else test_bit byte j)) where
  write_same : buddy_get (set bitmap (mask_index layer index) new) layer index ≡ some v
  unfolding buddy_get
  write_same =
      rw
        (
          byte_at_in _ layer index blk.in_layer,
          get_elem?-set_self bitmap (mask_index layer index) new blk.in_bitmap,
        )
        (rw (law (bit_index layer index) (position_heap layer index blk.in_layer).1, ==_refl))

  write_other :
      (l i : ℕ)
      → IsBlock bitmap l i
      → (l == layer && (i == index)) ≡ false
      → buddy_get (set bitmap (mask_index layer index) new) l i ≡ buddy_get bitmap l i
  unfolding buddy_get
  write_other l i b other = elim (ℕ_discrete (mask_index layer index) (mask_index l i)) [
    | no ne ↦
        rw
          (byte_at_in _ l i b.in_layer, byte_at_in _ l i b.in_layer, get_elem?-set_ne bitmap new ne)
    | yes e ↦
        let ne : bit_index layer index ≢ bit_index l i =
          λ same. differ (position_injective layer index l i blk.in_layer b.in_layer e same) in
        rw
          (
            byte_at_in _ l i b.in_layer,
            byte_at_in _ l i b.in_layer,
            ← e,
            get_elem?-set_self bitmap (mask_index layer index) new blk.in_bitmap,
            here,
          )
          (rw (law (bit_index l i) (position_heap l i b.in_layer).1, ==_of_ne ne))
  ]
    where
      differ : (layer ≡ l) × (index ≡ i) → ⊥
      differ (p, q) = ground arith

  write_get :
      (l i : ℕ)
      → IsBlock bitmap l i
      → buddy_get (set bitmap (mask_index layer index) new) l i
        ≡ (if l == layer && (i == index) then some v else buddy_get bitmap l i)
  write_get l i b = elim (Bool-cases (l == layer && (i == index))) [
    | inr other ↦ rw other (write_other l i b other)
    | inl same ↦ let (el, ei) = both same in rw same (rw (el, ei) write_same)
  ]
    where
      both : (l == layer && (i == index)) ≡ true → (l ≡ layer) × (i ≡ index)
      both h = ground arith

module _ (bitmap : Bitmap) (layer index : ℕ) (blk : IsBlock bitmap layer index)
    (bytes : IsBytes bitmap) where
  -- Setting or clearing the bit of a block succeeds, keeps the size of the bitmap and its bytes.
  pub buddy_set-some :
      (out : Bitmap) × (buddy_set bitmap layer index ≡ some out)
      × (length out ≡ length bitmap)
      × IsBytes out
  unfolding buddy_set
  buddy_set-some =
      let m = mask_index layer index in
      let (byte, here) = get_elem?-lt bitmap m blk.in_bitmap in
      let new = set_bit byte (bit_index layer index) in
      (
        set bitmap m new,
        rw (byte_at_in bitmap layer index blk.in_layer, here),
        length-set bitmap m new,
        IsBytes-set bitmap m new (omega arith) bytes,
      )

  pub buddy_unset-some :
      (out : Bitmap) × (buddy_unset bitmap layer index ≡ some out)
      × (length out ≡ length bitmap)
      × IsBytes out
  unfolding buddy_unset
  buddy_unset-some =
      let m = mask_index layer index in
      let (byte, here) = get_elem?-lt bitmap m blk.in_bitmap in
      let new = clear_bit byte (bit_index layer index) in
      (
        set bitmap m new,
        rw (byte_at_in bitmap layer index blk.in_layer, here),
        length-set bitmap m new,
        IsBytes-set bitmap m new (omega arith) bytes,
      )

  module _ (l i : ℕ) (b : IsBlock bitmap l i) {out : Bitmap} where
    -- `buddy_set` turns on the bit of its block, and leaves the bit of every other block.
    pub buddy_get-buddy_set :
        buddy_set bitmap layer index ≡ some out
        → buddy_get out l i
          ≡ (if l == layer && (i == index) then some true else buddy_get bitmap l i)
    unfolding buddy_set
    buddy_get-buddy_set run =
        let m = mask_index layer index in
        let (byte, here) = get_elem?-lt bitmap m blk.in_bitmap in
        let new = set_bit byte (bit_index layer index) in
        let law = λ (j : ℕ) (lt : j < 8).
          test_bit-set_bit byte (bit_index layer index) j (IsBytes-get bitmap m bytes here)
            (position_heap layer index blk.in_layer).1 lt in
        let done : set bitmap m new ≡ out =
          some_inj (rw (byte_at_in bitmap layer index blk.in_layer, here) at run) in
        rw (← done) (write_get bitmap layer index blk new true here law l i b)

    -- `buddy_unset` turns off the bit of its block, and leaves the bit of every other block.
    pub buddy_get-buddy_unset :
        buddy_unset bitmap layer index ≡ some out
        → buddy_get out l i
          ≡ (if l == layer && (i == index) then some false else buddy_get bitmap l i)
    unfolding buddy_unset
    buddy_get-buddy_unset run =
        let m = mask_index layer index in
        let (byte, here) = get_elem?-lt bitmap m blk.in_bitmap in
        let new = clear_bit byte (bit_index layer index) in
        let law = λ (j : ℕ) (lt : j < 8).
          test_bit-clear_bit byte (bit_index layer index) j (IsBytes-get bitmap m bytes here)
            (position_heap layer index blk.in_layer).1 lt in
        let done : set bitmap m new ≡ out =
          some_inj (rw (byte_at_in bitmap layer index blk.in_layer, here) at run) in
        rw (← done) (write_get bitmap layer index blk new false here law l i b)
