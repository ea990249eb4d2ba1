-- ===== src/Fat16/Name.antt =====
-- The names of penguin-fat16/kmodule/fat16.c: eleven bytes in a directory entry, padded with spaces,
-- and the text that the user sees. A result of -1 is `none`.
pub mod Padded
pub mod Printed
mod Tests
use doomsday_kernel_modules.Base.{
  ℕ, ◌+◌, ◌-◌, ◌%◌, ◌^◌, ◌≡◌, Option, none, some, ◌>>=◌, Bool, ◌||◌, List, [], ◌∷◌, ◌++◌, ltb, leb,
  ◌==◌, if◌then◌else◌, length, get_or, set, take, drop, replicate, Lacks, c_text,
}

-- What the module calls on texts in the kernel.
pub record Strings : Type 0 where
  -- The text in front of the first separator, and what follows it, if there is one.
  pub strsep : List ℕ → ℕ → List ℕ × Option (List ℕ)
  pub strsep_found :
      (sep : ℕ) (word rest : List ℕ)
      → Lacks sep word
      → strsep (word ++ (sep ∷ rest)) sep ≡ (word, some rest)
  pub strsep_last : (sep : ℕ) (word : List ℕ) → Lacks sep word → strsep word sep ≡ (word, none)
  pub toupper : ℕ → ℕ

abbrev pub fat16_stem_len : ℕ
fat16_stem_len = 8

abbrev pub fat16_extension_len : ℕ
fat16_extension_len = 3

abbrev pub fat16_filename_len : ℕ
fat16_filename_len = 11

-- `outsz - 1`, on 64 bits
abbrev pub last_index : ℕ → ℕ
last_index outsz = (outsz + 2 ^ 64 - 1) % 2 ^ 64

-- The bytes of a field up to its first space, put at the end of the output.
unfoldable pub copy_field : ℕ → List ℕ → List ℕ → Option (List ℕ)
copy_field outsz [] out = some out
copy_field outsz (c ∷ field) out =
    let rest = copy_field outsz field (out ++ (c ∷ [])) in
    if c == b' ' then some out else (if leb (last_index outsz) (length out) then none else rest)

-- The dot and the bytes of the extension.
unfoldable pub copy_extension : ℕ → List ℕ → List ℕ → Option (List ℕ)
unfolding copy_field
copy_extension outsz field out =
    if leb (last_index outsz) (length out)
    then none
    else copy_field outsz field (out ++ (b'.' ∷ []))

unfoldable pub fat16_83_to_str : List ℕ → ℕ → Option (List ℕ)
unfolding copy_field copy_extension
fat16_83_to_str name83 outsz = copy_field outsz (take fat16_stem_len name83) [] >>= λ stem.
    if get_or name83 fat16_stem_len 0 == b' '
    then some stem
    else copy_extension outsz (take fat16_extension_len (drop fat16_stem_len name83)) stem

-- `p ? p : ""`
unfoldable pub or_empty : Option (List ℕ) → List ℕ
or_empty none = []
or_empty (some text) = text

module _ (strings : Strings) where
  open strings use {strsep, toupper}

  -- `for (i = 0; i < len; ++i) out83[at + i] = toupper(text[i])`
  unfoldable pub put_upper : List ℕ → ℕ → List ℕ → List ℕ
  put_upper out83 at [] = out83
  put_upper out83 at (c ∷ text) = put_upper (set out83 at (toupper c)) (at + 1) text

  -- The two fields of a name.
  unfoldable pub put_fields : List ℕ → List ℕ → Option (List ℕ)
  unfolding put_upper
  put_fields stem ext =
      if ltb fat16_stem_len (length stem) || ltb fat16_extension_len (length ext)
      then none
      else some
          (put_upper (put_upper (replicate fat16_filename_len b' ') 0 stem) fat16_stem_len ext)

  -- `name` has its `namelen` bytes; the buffer has 13 bytes.
  unfoldable pub fat16_str_to_83 : List ℕ → Option (List ℕ)
  unfolding put_fields or_empty
  fat16_str_to_83 name =
      let (stem, p) = strsep (c_text name) b'.' in
      if leb (fat16_stem_len + 1 + fat16_extension_len + 1) (length name)
      then none
      else put_fields stem (or_empty p)
