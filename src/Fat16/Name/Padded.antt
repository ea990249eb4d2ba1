-- ===== src/Fat16/Name/Padded.antt =====
-- Fields padded with spaces, and how `put_upper` fills them.
use doomsday_kernel_modules.Base.{
  ℕ, zero, suc, ◌+◌, ◌-◌, ◌≤◌, ◌≡◌, refl, sym, ap, ◌∙◌, List, [], ◌∷◌, ◌++◌, arith, map, length,
  set, replicate, length-append, length-map, ltb_of_le, some, append_nil, append_snoc,
}
use doomsday_kernel_modules.Fat16.Name.{
  Strings, fat16_stem_len, fat16_extension_len, put_upper, put_fields,
}

abbrev pub spaces : ℕ → List ℕ
spaces n = replicate n b' '

abbrev pub pad : ℕ → List ℕ → List ℕ
pad n field = field ++ spaces (n - length field)

-- The eleven bytes of a name.
abbrev pub name83 : List ℕ → List ℕ → List ℕ
name83 stem ext = pad fat16_stem_len stem ++ pad fat16_extension_len ext

length-spaces : (n : ℕ) → length (spaces n) ≡ n
length-spaces zero = refl
length-spaces (suc n) = ap suc (length-spaces n)

pub length-pad : (n : ℕ) (field : List ℕ) → length field ≤ n → length (pad n field) ≡ n
length-pad n field h =
    omega (arith, length-append field (spaces (n - length field)), length-spaces (n - length field))

set_behind :
    (front back : List ℕ) (x v : ℕ)
    → set (front ++ (x ∷ back)) (length front) v ≡ front ++ (v ∷ back)
set_behind [] back x v = refl
set_behind (f ∷ front) back x v = ap (λ r. f ∷ r) (set_behind front back x v)

module _ (strings : Strings) where
  open strings use {toupper}

  -- Spaces behind `front` give way to the text.
  put_upper_blank :
      (front text back : List ℕ) (n at : ℕ)
      → length text ≤ n
      → at ≡ length front
      → put_upper strings (front ++ (spaces n ++ back)) at text
        ≡ front ++ (pad n (map toupper text) ++ back)
  unfolding put_upper
  put_upper_blank front [] back n at h e =
      ap (λ (k : ℕ). front ++ (spaces k ++ back)) {x = n} {y = n - 0} (omega arith)
  put_upper_blank front (c ∷ text) back zero at h e = elim h [ ]
  put_upper_blank front (c ∷ text) back (suc n) at h e =
      let end = length-append front (toupper c ∷ []) in
      ap (λ out. put_upper strings out (at + 1) text)
        (ap (λ (k : ℕ). set (front ++ (b' ' ∷ (spaces n ++ back))) k (toupper c)) e
          ∙ set_behind front (spaces n ++ back) b' ' (toupper c)
          ∙ append_snoc front (toupper c) (spaces n ++ back))
      ∙ put_upper_blank (front ++ (toupper c ∷ [])) text back n (at + 1) (omega arith)
          (omega (arith, end))
      ∙ sym (append_snoc front (toupper c) (pad n (map toupper text) ++ back))
      ∙ ap (λ (k : ℕ). front ++ (toupper c ∷ ((map toupper text ++ spaces k) ++ back)))
          {x = n - length (map toupper text)} {y = suc n - suc (length (map toupper text))}
          (omega arith)

  -- `put_fields` gives the padded name in upper case.
  pub put_fields-name83 :
      (stem ext : List ℕ)
      → length stem ≤ fat16_stem_len
      → length ext ≤ fat16_extension_len
      → put_fields strings stem ext ≡ some (name83 (map toupper stem) (map toupper ext))
  unfolding put_fields
  put_fields-name83 stem ext hs he =
      let stem83 = pad fat16_stem_len (map toupper stem) in
      rw (ltb_of_le hs, ltb_of_le he)
        (ap some (
          ap (λ out. put_upper strings out fat16_stem_len ext)
            (put_upper_blank [] stem (spaces 3) 8 0 hs refl)
          ∙ put_upper_blank stem83 ext [] 3 8 he
              (sym (length-pad 8 (map toupper stem) (omega (arith, length-map stem toupper))))
          ∙ ap (λ r. stem83 ++ r) (append_nil (pad 3 (map toupper ext)))))
