-- ===== src/TelegramFs/Kernel.antt =====
-- What the tgfs module calls in the kernel, as an interface: formatting, splitting and reading of
-- text. A text is the list of its bytes, without the closing zero.
use doomsday_kernel_modules.Base.{
  Lacks, ℕ, ◌+◌, ◌-◌, ◌≡◌, ◌<◌, Option, none, some, List, [], ◌∷◌, ◌++◌, take,
}

-- What `kstrtoint` reads; `negsuc n` is -(n + 1).
pub data ℤ : Type 0 where
  pos : ℕ → ℤ
  negsuc : ℕ → ℤ

pub record Kernel : Type 0 where
  -- What `scnprintf` stores of a formatted text in a buffer of the given size; it returns the
  -- number of bytes stored, the closing zero not counted.
  pub scnprintf : ℕ → List ℕ → List ℕ
  pub scnprintf_cuts : (size : ℕ) (text : List ℕ) → scnprintf size text ≡ take (size - 1) text
  -- The text that `%d` gives for an index.
  pub show_int : ℕ → List ℕ
  pub show_int_digit : (n : ℕ) → n < 10 → show_int n ≡ ((48 + n) ∷ [])
  -- What `strscpy` stores of a text in a buffer of the given size, the closing zero not counted.
  pub strscpy : ℕ → List ℕ → List ℕ
  pub strscpy_cuts : (size : ℕ) (text : List ℕ) → strscpy size text ≡ take (size - 1) text
  -- The text in front of the first separator, and what follows it, if there is one.
  pub strsep : List ℕ → ℕ → List ℕ × Option (List ℕ)
  pub strsep_found :
      (sep : ℕ) (word rest : List ℕ)
      → Lacks sep word
      → strsep (word ++ (sep ∷ rest)) sep ≡ (word, some rest)
  pub strsep_last : (sep : ℕ) (word : List ℕ) → Lacks sep word → strsep word sep ≡ (word, none)
  -- The number that a decimal text stands for.
  pub kstrtoint : List ℕ → Option ℤ
  pub kstrtoint_digit : (n : ℕ) → n < 10 → kstrtoint ((48 + n) ∷ []) ≡ some (pos n)
