-- ===== src/Fat16/Name/Printed.antt =====
-- The text of a padded name, and the name that a text is read as.
use doomsday_kernel_modules.Base.{
  ℕ, zero, suc, ◌+◌, ◌-◌, ◌≤◌, ◌≡◌, refl, sym, ap, ap₂, ◌∙◌, false, Bool-cases, inl, inr, List, [],
  ◌∷◌, ◌++◌, arith, map, length, take, drop, get_or, length-append, length-take, Lacks, some, ◌>>=◌,
  append_nil, append_snoc, leb, leb_of_lt, ◌==◌, ==_of_ne, c_text_plain,
}
use doomsday_kernel_modules.Fat16.Name.{
  Strings, fat16_stem_len, fat16_extension_len, last_index, copy_field, copy_extension,
  fat16_83_to_str, fat16_str_to_83, or_empty,
}
use doomsday_kernel_modules.Fat16.Name.Padded.{pad, spaces, name83, length-pad, put_fields-name83}

-- A field of at most `n` bytes without a space.
pub record IsField (n : ℕ) (field : List ℕ) : Type 0 where
  pub fits : length field ≤ n
  pub no_space : Lacks b' ' field

-- The text of a name: the extension, if there is one, stands behind a dot.
abbrev pub print_name : List ℕ → List ℕ → List ℕ
print_name stem [] = stem
print_name stem (c ∷ ext) = stem ++ (b'.' ∷ (c ∷ ext))

copy_field_word :
    (outsz k : ℕ) (word out : List ℕ)
    → Lacks b' ' word
    → length out + length word ≤ last_index outsz
    → copy_field outsz (word ++ spaces k) out ≡ some (out ++ word)
unfolding copy_field
copy_field_word outsz zero [] out h room = ap some (sym (append_nil out))
copy_field_word outsz (suc k) [] out h room = ap some (sym (append_nil out))
copy_field_word outsz k (c ∷ word) out (ne, h) room =
    let free : leb (last_index outsz) (length out) ≡ false = leb_of_lt (omega arith) in
    rw (==_of_ne ne, free)
      (copy_field_word outsz k word (out ++ (c ∷ [])) h (omega (arith, length-append out (c ∷ [])))
        ∙ ap some (sym (append_snoc out c word)))

-- Where the output has room for the whole field, something is copied.
copy_field_fits :
    (outsz : ℕ) (field out : List ℕ)
    → length out + length field ≤ last_index outsz
    → (text : List ℕ) × (copy_field outsz field out ≡ some text)
      × (length text ≤ length out + length field)
unfolding copy_field
copy_field_fits outsz [] out room = (out, refl, omega arith)
copy_field_fits outsz (c ∷ field) out room =
    let free : leb (last_index outsz) (length out) ≡ false = leb_of_lt (omega arith) in
    let (text, copied, short) =
      copy_field_fits outsz field (out ++ (c ∷ [])) (omega (arith, length-append out (c ∷ []))) in
    elim (Bool-cases (c == b' ')) [
      | inl blank ↦ rw blank (out, refl, omega arith)
      | inr more ↦ rw (more, free) (text, copied, omega (arith, length-append out (c ∷ [])))
    ]

take_front : (n : ℕ) (xs ys : List ℕ) → length xs ≡ n → take n (xs ++ ys) ≡ xs
take_front zero [] ys e = refl
take_front zero (x ∷ xs) ys e = absurd (omega arith)
take_front (suc n) [] ys e = absurd (omega arith)
take_front (suc n) (x ∷ xs) ys e = ap (λ r. x ∷ r) (take_front n xs ys (omega arith))

take_whole : (n : ℕ) (xs : List ℕ) → length xs ≡ n → take n xs ≡ xs
take_whole zero [] e = refl
take_whole zero (x ∷ xs) e = absurd (omega arith)
take_whole (suc n) [] e = absurd (omega arith)
take_whole (suc n) (x ∷ xs) e = ap (λ r. x ∷ r) (take_whole n xs (omega arith))

drop_front : (n : ℕ) (xs ys : List ℕ) → length xs ≡ n → drop n (xs ++ ys) ≡ ys
drop_front zero [] ys e = refl
drop_front zero (x ∷ xs) ys e = absurd (omega arith)
drop_front (suc n) [] ys e = absurd (omega arith)
drop_front (suc n) (x ∷ xs) ys e = drop_front n xs ys (omega arith)

get_behind :
    (n : ℕ) (xs ys : List ℕ) (d : ℕ) → length xs ≡ n → get_or (xs ++ ys) n d ≡ get_or ys 0 d
get_behind zero [] ys d e = refl
get_behind zero (x ∷ xs) ys d e = absurd (omega arith)
get_behind (suc n) [] ys d e = absurd (omega arith)
get_behind (suc n) (x ∷ xs) ys d e = get_behind n xs ys d (omega arith)

-- The text of the padded name of two fields that fit and have no space is the stem, and the
-- extension behind a dot, if there is one.
pub fat16_83_to_str-name83 :
    (stem ext : List ℕ)
    → IsField fat16_stem_len stem
    → IsField fat16_extension_len ext
    → fat16_83_to_str (name83 stem ext) 13 ≡ some (print_name stem ext)
unfolding fat16_83_to_str copy_extension
fat16_83_to_str-name83 stem [] s e =
    let long = length-pad 8 stem s.fits in
    rw (
      take_front 8 (pad 8 stem) (pad 3 []) long,
      copy_field_word 13 (8 - length stem) stem [] s.no_space (omega (arith, s.fits)),
      get_behind 8 (pad 8 stem) (pad 3 []) 0 long,
    )
fat16_83_to_str-name83 stem (c ∷ ext) s e =
    let long = length-pad 8 stem s.fits in
    let (ne, plain) = e.no_space in
    let free : leb (last_index 13) (length stem) ≡ false = leb_of_lt (omega (arith, s.fits)) in
    rw
      (
        take_front 8 (pad 8 stem) (pad 3 (c ∷ ext)) long,
        copy_field_word 13 (8 - length stem) stem [] s.no_space (omega (arith, s.fits)),
        get_behind 8 (pad 8 stem) (pad 3 (c ∷ ext)) 0 long,
        ==_of_ne ne,
        free,
      )
      (ap (λ field. copy_field 13 field (stem ++ (b'.' ∷ [])))
          (ap (λ field. take 3 field) (drop_front 8 (pad 8 stem) (pad 3 (c ∷ ext)) long)
            ∙ take_whole 3 (pad 3 (c ∷ ext)) (length-pad 3 (c ∷ ext) e.fits))
        ∙ copy_field_word 13 (3 - suc (length ext)) (c ∷ ext) (stem ++ (b'.' ∷ [])) e.no_space
            (omega (arith, s.fits, e.fits, length-append stem (b'.' ∷ [])))
        ∙ ap some (sym (append_snoc stem b'.' (c ∷ ext))))

-- Eleven bytes of a name always have a text of at most twelve bytes, so the buffers of thirteen bytes hold
-- it with its closing zero.
pub fat16_83_to_str_fits :
    (name : List ℕ)
    → length name ≡ 11
    → (text : List ℕ) × (fat16_83_to_str name 13 ≡ some text) × (length text ≤ 12)
unfolding fat16_83_to_str copy_extension
fat16_83_to_str_fits name e =
    let (stem, read_stem, stem_short) =
      copy_field_fits 13 (take 8 name) [] (omega (arith, length-take 8 name)) in
    rw read_stem (elim (Bool-cases (get_or name 8 0 == b' ')) [
      | inl blank ↦ rw blank (stem, refl, omega (arith, length-take 8 name))
      | inr more ↦
          let dotted = stem ++ (b'.' ∷ []) in
          let free : leb (last_index 13) (length stem) ≡ false =
            leb_of_lt (omega (arith, length-take 8 name)) in
          let (text, read_text, text_short) = copy_field_fits 13 (take 3 (drop 8 name)) dotted (
            omega (
              arith,
              length-append stem (b'.' ∷ []),
              length-take 8 name,
              length-take 3 (drop 8 name),
            )) in
          rw (more, free)
            (
              text,
              read_text,
              omega (
                arith,
                length-append stem (b'.' ∷ []),
                length-take 8 name,
                length-take 3 (drop 8 name),
              ),
            )
    ])

module _ (strings : Strings) where
  open strings use {strsep_found, strsep_last, toupper}

  -- The text of a name whose fields fit, without a dot in the stem and without a zero byte, is
  -- read as the padded name in upper case.
  pub fat16_str_to_83-print_name :
      (stem ext : List ℕ)
      → length stem ≤ fat16_stem_len
      → length ext ≤ fat16_extension_len
      → Lacks b'.' stem
      → Lacks 0 (print_name stem ext)
      → fat16_str_to_83 strings (print_name stem ext)
        ≡ some (name83 (map toupper stem) (map toupper ext))
  unfolding fat16_str_to_83 or_empty
  fat16_str_to_83-print_name stem [] hs he one plain =
      let short : leb 13 (length stem) ≡ false = leb_of_lt (omega arith) in
      rw (c_text_plain stem plain, strsep_last b'.' stem one, short)
        (put_fields-name83 strings stem [] hs he)
  fat16_str_to_83-print_name stem (c ∷ ext) hs he one plain =
      let short : leb 13 (length (stem ++ (b'.' ∷ (c ∷ ext)))) ≡ false =
        leb_of_lt (omega (arith, length-append stem (b'.' ∷ (c ∷ ext)))) in
      rw
        (
          c_text_plain (stem ++ (b'.' ∷ (c ∷ ext))) plain,
          strsep_found b'.' stem (c ∷ ext) one,
          short,
        )
        (put_fields-name83 strings stem (c ∷ ext) hs he)

  -- For two fields in upper case that fit and have no space, without a dot in the stem and without
  -- a zero byte, printing the padded name and reading the text gives the name.
  pub fat16_str_to_83-fat16_83_to_str :
      (stem ext : List ℕ)
      → IsField fat16_stem_len stem
      → IsField fat16_extension_len ext
      → map toupper stem ≡ stem
      → map toupper ext ≡ ext
      → Lacks b'.' stem
      → Lacks 0 (print_name stem ext)
      → (fat16_83_to_str (name83 stem ext) 13 >>= λ text. fat16_str_to_83 strings text)
        ≡ some (name83 stem ext)
  fat16_str_to_83-fat16_83_to_str stem ext s e us ue one plain =
      rw (fat16_83_to_str-name83 stem ext s e) (
        fat16_str_to_83-print_name stem ext s.fits e.fits one plain
        ∙ ap₂ (λ a b. some (name83 a b)) us ue)
