-- ===== src/NeuroSwap/Math/Rows.antt =====
-- `matvec` over an array that lists the rows of a matrix.
use doomsday_kernel_modules.Base.{
  ℕ, zero, suc, ◌+◌, ◌*◌, ◌≡◌, refl, sym, ap, ap₂, ◌∙◌, List, [], ◌∷◌, ◌++◌, map, length, arith,
  length-append, append_snoc, append_assoc, get_or_behind,
}
use native.Mathlib.Nat.{add-mul, one-mul, zero-mul}
use doomsday_kernel_modules.NeuroSwap.Float.{Float}
use doomsday_kernel_modules.NeuroSwap.Math.{build, row_loop, matvec}

pub length-build {ℓ} : {A : Type ℓ} (n i : ℕ) (f : ℕ → A) → length (build n i f) ≡ n
unfolding build
length-build zero i f = refl
length-build (suc n) i f = ap suc (length-build n (i + 1) f)

-- All rows have the same length.
abbrev pub IsMatrix {ℓ} : {A : Type ℓ} → ℕ → List (List A) → Type 0
IsMatrix n [] = Unit
IsMatrix n (row ∷ rows) = (length row ≡ n) × IsMatrix n rows

abbrev pub concat {ℓ} : {A : Type ℓ} → List (List A) → List A
concat [] = []
concat (row ∷ rows) = row ++ concat rows

module _ (float : Float) where
  open float use {F, nought, add, mul}

  -- The sum of the products, from the left.
  abbrev pub dot_from : F → List F → List F → F
  dot_from acc [] x = acc
  dot_from acc (a ∷ row) [] = acc
  dot_from acc (a ∷ row) (b ∷ x) = dot_from (add acc (mul a b)) row x

  -- The array has the row behind `start` places.
  row_loop-dot_from :
      (front row back done x : List F) (start j : ℕ) (acc : F)
      → length row ≡ length x
      → length front ≡ start + j
      → length done ≡ j
      → row_loop float (front ++ (row ++ back)) (done ++ x) start (length row) j acc
        ≡ dot_from acc row x
  unfolding row_loop
  row_loop-dot_from front [] back done x start j acc e f g = refl
  row_loop-dot_from front (a ∷ row) back done [] start j acc e f g = absurd (omega (arith, e))
  row_loop-dot_from front (a ∷ row) back done (b ∷ x) start j acc e f g =
      let front' = front ++ (a ∷ []) in
      let done' = done ++ (b ∷ []) in
      ap
        (λ (out : F).
          row_loop float (front ++ (a ∷ (row ++ back))) (done ++ (b ∷ x)) start (length row) (j + 1)
            out)
        (ap₂ (λ (p q : F). add acc (mul p q))
          (get_or_behind (start + j) front a (row ++ back) nought f)
          (get_or_behind j done b x nought g))
      ∙ ap₂ (λ (p q : List F). row_loop float p q start (length row) (j + 1) (add acc (mul a b)))
          (append_snoc front a (row ++ back)) (append_snoc done b x)
      ∙ row_loop-dot_from front' row back done' x start (j + 1) (add acc (mul a b))
          (omega (arith, e)) (omega (arith, length-append front (a ∷ []), f))
          (omega (arith, length-append done (b ∷ []), g))

  rows_build :
      (front : List F) (rows : List (List F)) (x : List F) (i : ℕ)
      → IsMatrix (length x) rows
      → length front ≡ i * length x
      → build
          (length rows)
          i
          (λ k. row_loop float (front ++ concat rows) x (k * length x) (length x) 0 nought)
        ≡ map (λ row. dot_from nought row x) rows
  unfolding build
  rows_build front [] x i h f = refl
  rows_build front (row ∷ rows) x i (e, h) f =
      ap₂ ◌∷◌
        (ap (λ (n : ℕ). row_loop float (front ++ (row ++ concat rows)) x (i * length x) n 0 nought)
            (sym e)
          ∙ row_loop-dot_from front row (concat rows) [] x (i * length x) 0 nought e
              (omega (arith, f)) refl)
        (ap
            (λ (all : List F).
              build (length rows) (i + 1)
                (λ k. row_loop float all x (k * length x) (length x) 0 nought))
            (sym (append_assoc front row (concat rows)))
          ∙ rows_build (front ++ row) rows x (i + 1) h (
              omega
                (arith, length-append front row, f, e, add-mul i 1 (length x), one-mul (length x))))

  -- Over the array that lists the rows of a matrix one after the other, each as long as the vector, matvec
  -- gives the product of each row with the vector, the products summed from the left.
  pub matvec-dot_from :
      (rows : List (List F)) (x : List F)
      → IsMatrix (length x) rows
      → matvec float (concat rows) x (length rows) (length x)
        ≡ map (λ row. dot_from nought row x) rows
  unfolding matvec
  matvec-dot_from rows x h = rows_build [] rows x 0 h (omega (arith, zero-mul (length x)))
