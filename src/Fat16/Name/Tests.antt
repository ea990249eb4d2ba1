-- ===== src/Fat16/Name/Tests.antt =====
-- Concrete functions of the kernel, and the theorems on names at concrete ones.
use doomsday_kernel_modules.Base.{
  ℕ, ◌-◌, ◌≡◌, refl, some, ◌>>=◌, ◌&&◌, List, [], ◌∷◌, arith, leb, if◌then◌else◌, split_at,
  split_at_found, split_at_last,
}
use doomsday_kernel_modules.Fat16.Name.{
  Strings, fat16_stem_len, fat16_extension_len, fat16_83_to_str, fat16_str_to_83,
}
use doomsday_kernel_modules.Fat16.Name.Padded.{name83}
use doomsday_kernel_modules.Fat16.Name.Printed.{IsField, fat16_str_to_83-fat16_83_to_str}

-- Capitals for the letters of ASCII.
abbrev ascii_upper : ℕ → ℕ
ascii_upper c = if leb b'a' c && leb c b'z' then (c - 32) else c

abbrev ascii : Strings
ascii = record {
  strsep = split_at;
  strsep_found = split_at_found;
  strsep_last = split_at_last;
  toupper = ascii_upper;
}

abbrev stem : List ℕ
stem = b'A' ∷ b'B' ∷ []

abbrev ext : List ℕ
ext = b'T' ∷ []

stem-IsField : IsField fat16_stem_len stem
stem-IsField = record { fits = omega arith; no_space = (omega arith, (omega arith, tt)) }

ext-IsField : IsField fat16_extension_len ext
ext-IsField = record { fits = omega arith; no_space = (omega arith, tt) }

name_round_trip_example :
    (fat16_83_to_str (name83 stem ext) 13 >>= λ text. fat16_str_to_83 ascii text)
    ≡ some (name83 stem ext)
name_round_trip_example =
    fat16_str_to_83-fat16_83_to_str ascii stem ext stem-IsField ext-IsField refl refl
      (omega arith, (omega arith, tt))
      (omega arith, (omega arith, (omega arith, (omega arith, tt))))
