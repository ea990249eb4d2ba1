-- ===== src/Base/Texts.antt =====
-- Texts of C: lists of bytes without the closing zero.
use Prim.Native.Nat.{ℕ}
use mathlib.Core.Path.{◌≡◌, refl, ap}
use mathlib.Core.Logic.{◌≢◌}
use mathlib.Core.Bool.{true}
use mathlib.Core.Option.{Option, none, some}
use native.Mathlib.Omega.{arith}
use mathlib.Core.List.{List, [], ◌∷◌, ◌++◌}
use doomsday_kernel_modules.Base.Tests.{◌==◌, if◌then◌else◌, ==_of_ne}

-- No byte of the text is `c`.
abbrev pub Lacks : ℕ → List ℕ → Type 0
Lacks c [] = Unit
Lacks c (x ∷ xs) = (x ≢ c) × Lacks c xs

-- The part of a byte array that a `%s` prints: the bytes before the first zero.
unfoldable pub c_text : List ℕ → List ℕ
c_text [] = []
c_text (c ∷ bytes) = let rest = c ∷ c_text bytes in if c == 0 then [] else rest

pub c_text_plain : (text : List ℕ) → Lacks 0 text → c_text text ≡ text
unfolding c_text
c_text_plain [] h = refl
c_text_plain (c ∷ text) (ne, h) = rw (==_of_ne ne) (ap (λ r. c ∷ r) (c_text_plain text h))

-- A text in front of the first separator, and what follows it.
abbrev pub split_at : List ℕ → ℕ → List ℕ × Option (List ℕ)
split_at [] sep = ([], none)
split_at (c ∷ text) sep =
    let rest = split_at text sep in if c == sep then ([], some text) else (c ∷ rest.0, rest.1)

same_char : (c : ℕ) → (c == c) ≡ true
same_char c = ground arith

pub split_at_found :
    (sep : ℕ) (word rest : List ℕ)
    → Lacks sep word
    → split_at (word ++ (sep ∷ rest)) sep ≡ (word, some rest)
split_at_found sep [] rest h = rw (same_char sep)
split_at_found sep (c ∷ word) rest (ne, h) =
    rw (==_of_ne ne) (ap (λ r. (c ∷ r.0, r.1)) (split_at_found sep word rest h))

pub split_at_last : (sep : ℕ) (word : List ℕ) → Lacks sep word → split_at word sep ≡ (word, none)
split_at_last sep [] h = refl
split_at_last sep (c ∷ word) (ne, h) =
    rw (==_of_ne ne) (ap (λ r. (c ∷ r.0, r.1)) (split_at_last sep word h))
