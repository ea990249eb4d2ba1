-- ===== src/Base/Every.antt =====
-- Properties of all elements of a list, and the choice of one of them.
use Prim.Native.Nat.{ℕ, zero, suc}
use mathlib.Core.Path.{◌≡◌, refl, ap}
use mathlib.Core.Option.{Option, none, some}
use mathlib.Core.List.{List, [], ◌∷◌}
use doomsday_kernel_modules.Base.Lists.{length}

module _ {A : Type 0} where
  abbrev pub All : (A → Type 0) → List A → Type 0
  All P [] = Unit
  All P (x ∷ xs) = P x × All P xs

  -- Each element is in the relation to all behind it.
  abbrev pub EachPair : (A → A → Type 0) → List A → Type 0
  EachPair R [] = Unit
  EachPair R (x ∷ xs) = All (R x) xs × EachPair R xs

  -- The element number `i`, and the list without it.
  unfoldable pub pick : ℕ → List A → Option (A × List A)
  pick i [] = none
  pick zero (x ∷ xs) = some (x, xs)
  pick (suc i) (x ∷ xs) = elim (pick i xs) [ none ↦ none | some (p, rest) ↦ some (p, x ∷ rest) ]

  -- The list is the element put somewhere into the rest.
  pub data Pick : List A → A → List A → Type 0 where
    here : {x : A} {xs : List A} → Pick (x ∷ xs) x xs
    there : {x p : A} {xs rest : List A} → Pick xs p rest → Pick (x ∷ xs) p (x ∷ rest)

  abbrev pub Picked : List A → Option (A × List A) → Type 0
  Picked xs none = Unit
  Picked xs (some (p, rest)) = Pick xs p rest

  pub pick-Picked : (i : ℕ) (xs : List A) → Picked xs (pick i xs)
  unfolding pick
  pick-Picked i [] = tt
  pick-Picked zero (x ∷ xs) = here
  pick-Picked (suc i) (x ∷ xs) =
      elim (pick i xs)
          as (λ r.
            Picked xs r
            → Picked (x ∷ xs) (elim r [ none ↦ none | some (p, ys) ↦ some (p, x ∷ ys) ])) [
              | none ↦ λ ih. tt
              | some (p, ys) ↦ λ ih. there ih
            ]
        (pick-Picked i xs)

  pub Pick-length : {p : A} {xs rest : List A} → Pick xs p rest → length xs ≡ suc (length rest)
  Pick-length here = refl
  Pick-length (there picked) = ap suc (Pick-length picked)

module _ {A : Type 0} (P : A → Type 0) where
  pub All-Pick : {p : A} {xs rest : List A} → Pick xs p rest → All P xs → P p × All P rest
  All-Pick here all = all
  All-Pick (there picked) (px, all) = let (pp, rest) = All-Pick picked all in (pp, (px, rest))

  pub Pick-All : {p : A} {xs rest : List A} → Pick xs p rest → P p → All P rest → All P xs
  Pick-All here pp all = (pp, all)
  Pick-All (there picked) pp (px, all) = (px, Pick-All picked pp all)

  module _ {Q : A → Type 0} where
    pub All-map : (xs : List A) → ((x : A) → P x → Q x) → All P xs → All Q xs
    All-map [] f all = tt
    All-map (x ∷ xs) f (px, rest) = (f x px, All-map xs f rest)

    pub All-zip :
        {R : A → Type 0} (xs : List A)
        → ((x : A) → P x → Q x → R x)
        → All P xs
        → All Q xs
        → All R xs
    All-zip [] f ps qs = tt
    All-zip (x ∷ xs) f (px, ps) (qx, qs) = (f x px qx, All-zip xs f ps qs)

pub EachPair-Pick :
    {A : Type 0} (R : A → A → Type 0) {p : A} {xs rest : List A}
    → ((a b : A) → R a b → R b a)
    → Pick xs p rest
    → EachPair R xs
    → All (R p) rest × EachPair R rest
EachPair-Pick R symmetric here pairs = pairs
EachPair-Pick R symmetric (there {x} {p} {xs} {rest} picked) (first, pairs) =
    let (apart, others) = EachPair-Pick R symmetric picked pairs in
    let (to_p, to_rest) = All-Pick (R x) picked first in
    ((symmetric x p to_p, apart), (to_rest, others))
