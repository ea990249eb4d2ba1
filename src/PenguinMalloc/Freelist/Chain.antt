-- ===== src/PenguinMalloc/Freelist/Chain.antt =====
-- A free list holds a sequence of blocks: a push puts a block in front, a pop takes the first.
use doomsday_kernel_modules.Base.{
  ℕ, ◌+◌, ◌≤◌, ◌⊎◌, inl, inr, true, false, leb, ◌==◌, ◌∙◌, ◌≡◌, ◌≢◌, refl, ap, Option, some, List,
  [], ◌∷◌, arith, ==_of_ne, ==_refl,
}
use doomsday_kernel_modules.PenguinMalloc.Freelist.{
  Memory, null, store, freelist_push, freelist_pop,
}

-- The words at two addresses do not overlap.
abbrev pub Far : ℕ → ℕ → Type 0
Far a b = (a + 8 ≤ b) ⊎ (b + 8 ≤ a)

pub store_same : (words : Memory) (a v : ℕ) → store words a v a ≡ v
unfolding store
store_same words a v = rw (==_refl a) refl

-- A store keeps the words that do not overlap its own.
pub store-Far : (words : Memory) (a v q : ℕ) → Far a q → store words a v q ≡ words q
unfolding store
store-Far words a v q (inl h) =
    let ne : (q == a) ≡ false = ==_of_ne (omega arith) in
    let over : leb (q + 8) a ≡ false = ground arith in
    let behind : leb (a + 8) q ≡ true = ground arith in rw (ne, over, behind) refl
store-Far words a v q (inr h) =
    let ne : (q == a) ≡ false = ==_of_ne (omega arith) in
    let before : leb (q + 8) a ≡ true = ground arith in rw (ne, before) refl

-- The word at `a` overlaps that of no element.
abbrev pub FarFrom : ℕ → List ℕ → Type 0
FarFrom a [] = Unit
FarFrom a (x ∷ xs) = Far a x × FarFrom a xs

-- From `list` the first words, none over another, lead through the blocks `xs` to NULL.
pub data Chain (mem : Memory) : ℕ → List ℕ → Type 0 where
  nil : Chain mem null []
  cons :
      {p q : ℕ} {xs : List ℕ}
      → p ≢ null
      → mem p ≡ q
      → FarFrom p xs
      → Chain mem q xs
      → Chain mem p (p ∷ xs)

-- What a pop returns from a list of the given blocks.
abbrev pub Popped : Memory → List ℕ → ℕ × Option ℕ → Type 0
Popped mem [] (block, list') = (block ≡ null) × (list' ≡ some null)
Popped mem (x ∷ xs) (block, list') = (block ≡ x) × ((q : ℕ) × (list' ≡ some q) × Chain mem q xs)

module _ {mem : Memory} where
  -- A store outside the first words of the blocks keeps the list.
  pub Chain-store :
      {list : ℕ} {xs : List ℕ} (a v : ℕ)
      → FarFrom a xs
      → Chain mem list xs
      → Chain (store mem a v) list xs
  unfolding store
  Chain-store a v out nil = nil
  Chain-store a v out (cons {p} {q} ne next apart rest) =
      cons ne (store-Far mem a v p out.0 ∙ next) apart (Chain-store a v out.1 rest)

  -- Pushing a block that is not NULL and away from the list puts it in front of the list.
  pub freelist_push-Chain :
      {list : ℕ} {xs : List ℕ} (block : ℕ)
      → block ≢ null
      → FarFrom block xs
      → Chain mem list xs
      → let (list', mem') = freelist_push mem (some list) block in
        (list' ≡ some block) × Chain mem' block (block ∷ xs)
  unfolding freelist_push store
  freelist_push-Chain {list} block ne out chain =
      (refl, rw (==_of_ne ne) (cons ne (rw (==_refl block)) out (Chain-store block list out chain)))

  -- A push keeps the lists that the block is away from.
  pub freelist_push_kept :
      {list : ℕ} {xs : List ℕ} (head block : ℕ)
      → block ≢ null
      → FarFrom block xs
      → Chain mem list xs
      → Chain (freelist_push mem (some head) block).1 list xs
  unfolding freelist_push store
  freelist_push_kept head block ne out chain = rw (==_of_ne ne) (Chain-store block head out chain)

  -- Popping takes the first block and leaves the others; an empty list gives NULL and stays empty.
  pub freelist_pop-Chain :
      {list : ℕ} {xs : List ℕ} → Chain mem list xs → Popped mem xs (freelist_pop mem (some list))
  unfolding freelist_pop
  freelist_pop-Chain nil = (refl, refl)
  freelist_pop-Chain (cons {p} {q} ne next apart rest) =
      (refl, (q, rw (==_of_ne ne) (ap some next), rest))

-- A pop right after a push of a block that is not NULL returns the block and restores the
-- list variable.
pub freelist_pop-freelist_push :
    (mem : Memory) (list block : ℕ)
    → block ≢ null
    → (let (list', mem') = freelist_push mem (some list) block in freelist_pop mem' list')
      ≡ (block, some list)
unfolding freelist_push freelist_pop store
freelist_pop-freelist_push mem list block ne = rw (==_of_ne ne, ==_refl block)

-- What a list of the blocks begins with.
abbrev pub Begins : Memory → ℕ → List ℕ → Type 0
Begins words list [] = list ≡ null
Begins words list (x ∷ xs) = (list ≡ x) × (x ≢ null) × FarFrom x xs × Chain words (words x) xs

pub Chain-Begins :
    {words : Memory} {list : ℕ} {xs : List ℕ} → Chain words list xs → Begins words list xs
Chain-Begins nil = refl
Chain-Begins (cons ne next apart rest) = (refl, ne, apart, rw next rest)
