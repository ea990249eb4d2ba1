-- ===== src/PenguinMalloc/Buddy/Split.antt =====
-- The whole splitting loop of `buddy_alloc`: what the bitmap and the free lists hold after it.
use native.Mathlib.Nat.{add-zero, mul-one, pow-suc}
use doomsday_kernel_modules.Base.{
  ℕ, zero, suc, ◌+◌, ◌*◌, ◌^◌, ◌≤◌, ◌<◌, ◌≡◌, refl, ap, ◌∙◌, Bool, true, false, Option, some, arith,
  ◌==◌, ◌&&◌, if◌then◌else◌, get_elem?, ==_of_ne,
}
use doomsday_kernel_modules.PenguinMalloc.BuddyUtil.{buddy_get, to_pointer}
use doomsday_kernel_modules.PenguinMalloc.Buddy.{Halves, split_loop}
use doomsday_kernel_modules.PenguinMalloc.Buddy.Step.{
  IsSized, split_bit, HasSplit, split_step-HasSplit, split_bit_left, split_bit_right,
  split_bit_self, split_bit_upper,
}

-- What `n` rounds of the loop from a block of `layer` do. Round `j` leaves the block
-- `index * 2^j` of layer `layer + j` marked, and its right child marked and first in its list; the
-- last left child is clear; nothing else changes in the layers down to `layer` and in the lists of
-- the other layers.
pub record AfterSplit (begin root k n layer index : ℕ) (s s' : Halves) : Type 0 where
  pub still_sized : IsSized k s'
  pub taken :
      buddy_get s'.bits (layer + n) (index * 2 ^ n)
      ≡ (if n == 0 then buddy_get s.bits layer index else some false)
  pub marked : (j : ℕ) → j < n → buddy_get s'.bits (layer + j) (index * 2 ^ j) ≡ some true
  pub right_marked :
      (j : ℕ) → j < n → buddy_get s'.bits (layer + suc j) (index * 2 ^ suc j + 1) ≡ some true
  pub right_listed :
      (j : ℕ)
      → j < n
      → get_elem? s'.lists (layer + suc j)
        ≡ some (to_pointer begin (layer + suc j) (index * 2 ^ suc j + 1) root)
  pub upper_bits :
      (l i : ℕ)
      → l ≤ layer
      → i < 2 ^ l
      → (l == layer && (i == index)) ≡ false
      → buddy_get s'.bits l i ≡ buddy_get s.bits l i
  pub upper_lists : (j : ℕ) → j ≤ layer → get_elem? s'.lists j ≡ get_elem? s.lists j
  pub lower_lists : (j : ℕ) → layer + n < j → get_elem? s'.lists j ≡ get_elem? s.lists j

module _ {begin root k layer index n : ℕ} {s : Halves} (sized : IsSized k s) (deep : layer < k)
    (h : index < 2 ^ layer) {s₁ s' : Halves}
    (one : HasSplit begin root k layer index s sized deep h s₁)
    (rest : AfterSplit begin root k n (suc layer) (index * 2) s₁ s') where
  down : (m : ℕ) → layer + suc m ≡ suc layer + m
  down m = omega arith

  double : (m : ℕ) → index * 2 ^ suc m ≡ index * 2 * 2 ^ m
  double m = omega (arith, ap (λ (t : ℕ). index * t) (pow-suc 2 m))

  -- The blocks that the first round touched keep their bits in the later rounds.
  kept_bit :
      (l i : ℕ)
      → l ≤ suc layer
      → i < 2 ^ l
      → (l == suc layer && (i == index * 2)) ≡ false
      → buddy_get s'.bits l i ≡ split_bit layer index (buddy_get s.bits) l i
  kept_bit l i le lt other = rest.upper_bits l i le lt other ∙ one.bits l i (omega arith) lt

  taken_cons :
      buddy_get s'.bits (layer + suc n) (index * 2 ^ suc n)
      ≡ (if suc n == 0 then buddy_get s.bits layer index else some false)
  taken_cons =
      let start = one.bits (suc layer) (index * 2) deep (omega (arith, pow-suc 2 layer)) in
      rw (down n, double n)
        (rest.taken ∙ both n (start ∙ split_bit_left layer index (buddy_get s.bits)))
    where
      both :
          (m : ℕ) {b : Option Bool}
          → b ≡ some false
          → (if m == 0 then b else some false)
            ≡ (if suc m == 0 then buddy_get s.bits layer index else some false)
      both m e = ground arith

  marked_cons : (j : ℕ) → j < suc n → buddy_get s'.bits (layer + j) (index * 2 ^ j) ≡ some true
  marked_cons zero lt =
      rw (add-zero, mul-one)
        (kept_bit layer index (omega arith) h (ground arith)
          ∙ split_bit_self layer index (buddy_get s.bits))
  marked_cons (suc j) lt = rw (down j, double j) (rest.marked j (omega arith))

  right_marked_cons :
      (j : ℕ) → j < suc n → buddy_get s'.bits (layer + suc j) (index * 2 ^ suc j + 1) ≡ some true
  right_marked_cons zero lt =
      rw (down 0, add-zero)
        (kept_bit (suc layer) (index * 2 + 1) (omega arith) (omega (arith, pow-suc 2 layer))
            (ground arith)
          ∙ split_bit_right layer index (buddy_get s.bits))
  right_marked_cons (suc j) lt =
      rw (down (suc j), double (suc j)) (rest.right_marked j (omega arith))

  right_listed_cons :
      (j : ℕ)
      → j < suc n
      → get_elem? s'.lists (layer + suc j)
        ≡ some (to_pointer begin (layer + suc j) (index * 2 ^ suc j + 1) root)
  right_listed_cons zero lt =
      rw (down 0, add-zero) (rest.upper_lists (suc layer) (omega arith) ∙ one.pushed)
  right_listed_cons (suc j) lt =
      rw (down (suc j), double (suc j)) (rest.right_listed j (omega arith))

  AfterSplit-cons : AfterSplit begin root k (suc n) layer index s s'
  AfterSplit-cons = record {
    still_sized = rest.still_sized;
    taken = taken_cons;
    marked = marked_cons;
    right_marked = right_marked_cons;
    right_listed = right_listed_cons;
    upper_bits = λ l i lo hi ne.
        let deeper : (l == suc layer) ≡ false = ==_of_ne (omega arith) in
        kept_bit l i (omega arith) hi (rw deeper)
        ∙ split_bit_upper layer index (buddy_get s.bits) l i lo ne;
    upper_lists = λ j lo. rest.upper_lists j (omega arith) ∙ one.kept j (omega arith);
    lower_lists = λ j lo. rest.lower_lists j (omega arith) ∙ one.kept j (omega arith);
  }

-- In an arena whose bitmap and lists reach layer `k`, splitting a block of `layer` down by `n`
-- layers succeeds, and leaves the state that `AfterSplit` describes.
pub split_loop-AfterSplit :
    (begin root k n layer index : ℕ) (s : Halves)
    → IsSized k s
    → layer + n ≤ k
    → index < 2 ^ layer
    → (s' : Halves) × (split_loop begin root n layer index s ≡ some s')
      × AfterSplit begin root k n layer index s s'
unfolding split_loop
split_loop-AfterSplit begin root k zero layer index s sized le h = (
  s,
  refl,
  record {
    still_sized = sized;
    taken = rw (add-zero, mul-one);
    marked = λ j lt. absurd (omega arith);
    right_marked = λ j lt. absurd (omega arith);
    right_listed = λ j lt. absurd (omega arith);
    upper_bits = λ l i lo hi ne. refl;
    upper_lists = λ j lo. refl;
    lower_lists = λ j lo. refl;
  },
)
split_loop-AfterSplit begin root k (suc n) layer index s sized le h =
    let deep : layer < k = omega arith in
    let (s₁, one) = split_step-HasSplit begin root k layer index s sized deep h in
    let (s', run, rest) =
      split_loop-AfterSplit begin root k n (suc layer) (index * 2) s₁ one.still_sized (omega arith)
        (omega (arith, pow-suc 2 layer)) in
    (s', rw one.run run, AfterSplit-cons sized deep h one rest)
