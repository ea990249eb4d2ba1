-- ===== src/PenguinMalloc/Buddy/Search.antt =====
-- The search of `buddy_alloc` for a layer with a free block, and the two ends of an allocation that
-- splits nothing: no block at all, and a block of just the wanted layer.
use native.Mathlib.Nat.{sub_self}
use doomsday_kernel_modules.Base.{
  ℕ, zero, suc, ◌≤◌, ◌<◌, ◌≡◌, ◌≢◌, ◌⊎◌, inl, inr, refl, ◌∙◌, ap, get_elem?-lt, set_same, some,
  List, arith, ==_of_ne, length, get_elem?, set, ℕ_discrete,
}
use doomsday_kernel_modules.PenguinMalloc.BuddyUtil.{best_fit_layer, to_index}
use doomsday_kernel_modules.PenguinMalloc.Freelist.{Memory, null, freelist_get, freelist_pop}
use doomsday_kernel_modules.PenguinMalloc.Buddy.{
  BuddyAlloc, find_layer, pop_at, buddy_alloc, split_block, split_loop,
}

-- `l` is the layer at which the search from `start` stops: the lists between the two are empty, and
-- that of `l` is not, unless `l` is the root's layer.
pub record IsFound (freelist : List ℕ) (start l : ℕ) : Type 0 where
  pub le_start : l ≤ start
  pub empty_between : (j : ℕ) → l < j → j ≤ start → get_elem? freelist j ≡ some null
  pub at_end : (l ≡ 0) ⊎ ((h : ℕ) × (get_elem? freelist l ≡ some h) × (h ≢ null))

IsFound-step :
    (freelist : List ℕ) (start l : ℕ)
    → get_elem? freelist (suc start) ≡ some null
    → IsFound freelist start l
    → IsFound freelist (suc start) l
IsFound-step freelist start l empty f = record {
  le_start = omega (arith, f.le_start);
  empty_between = λ j lo hi. elim (ℕ_discrete j (suc start)) [
    | yes e ↦ rw e empty
    | no ne ↦ f.empty_between j lo (omega arith)
  ];
  at_end = f.at_end;
}

-- From a layer that has a list, the search finds the nearest layer at or above it with a free
-- block, or stops at the root's layer.
pub find_layer-IsFound :
    (freelist : List ℕ) (start : ℕ)
    → start < length freelist
    → (l : ℕ) × (find_layer freelist start ≡ some l) × IsFound freelist start l
unfolding find_layer freelist_get
find_layer-IsFound freelist zero h = (
  0,
  refl,
  record {
    le_start = omega arith;
    empty_between = λ j lo hi. absurd (omega arith);
    at_end = inl refl;
  },
)
find_layer-IsFound freelist (suc start) h =
    let (head, here) = get_elem?-lt freelist (suc start) h in
    elim (ℕ_discrete head null) [
      | yes e ↦
          let (l, run, found) = find_layer-IsFound freelist start (omega arith) in
          let empty : get_elem? freelist (suc start) ≡ some null = here ∙ ap some e in
          (l, rw (here, e) run, IsFound-step freelist start l empty found)
      | no ne ↦ (
        suc start,
        rw (here, ==_of_ne ne),
        record {
          le_start = omega arith;
          empty_between = λ j lo hi. absurd (omega arith);
          at_end = inr (head, here, ne);
        },
      )
    ]

find_layer_empty :
    (freelist : List ℕ) (start : ℕ)
    → ((j : ℕ) → j ≤ start → get_elem? freelist j ≡ some null)
    → find_layer freelist start ≡ some 0
unfolding find_layer freelist_get
find_layer_empty freelist zero empty = refl
find_layer_empty freelist (suc start) empty =
    rw (empty (suc start) (omega arith))
      (find_layer_empty freelist start (λ j le. empty j (omega arith)))

find_layer_here :
    (freelist : List ℕ) (start : ℕ) {h : ℕ}
    → get_elem? freelist start ≡ some h
    → h ≢ null
    → find_layer freelist start ≡ some start
unfolding find_layer freelist_get
find_layer_here freelist zero e ne = refl
find_layer_here freelist (suc start) e ne = rw (e, ==_of_ne ne)

module _ (alloc : BuddyAlloc) (mem : Memory) (pages bf : ℕ)
    (best : best_fit_layer pages alloc.root_block_size ≡ some bf) where
  -- Where all lists from the root's to the wanted layer's are empty, `buddy_alloc` returns NULL and
  -- changes nothing.
  pub buddy_alloc-null :
      ((j : ℕ) → j ≤ bf → get_elem? alloc.freelist j ≡ some null)
      → buddy_alloc alloc mem pages ≡ some (null, alloc, mem)
  unfolding buddy_alloc pop_at freelist_pop
  buddy_alloc-null empty =
      let top = empty 0 (omega arith) in
      rw (best, find_layer_empty alloc.freelist bf empty, top, set_same alloc.freelist 0 top)

  -- Where the list of the wanted layer has a block of that layer, `buddy_alloc` takes the first
  -- block off that list and changes nothing else: no bit of the bitmap and no word of the memory.
  pub buddy_alloc_exact :
      (block index : ℕ)
      → get_elem? alloc.freelist bf ≡ some block
      → block ≢ null
      → to_index alloc.begin bf block alloc.root_block_size ≡ some index
      → buddy_alloc alloc mem pages
        ≡ some (block, record alloc { freelist = set alloc.freelist bf (mem block) }, mem)
  unfolding buddy_alloc pop_at freelist_pop split_block split_loop
  buddy_alloc_exact block index here ne at =
      rw (best, find_layer_here alloc.freelist bf here ne, here, ==_of_ne ne, at, sub_self)
