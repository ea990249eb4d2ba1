-- ===== src/PenguinMalloc/Slab/Untouched.antt =====
-- A request of one user changes no word of the objects of the others.
use doomsday_kernel_modules.Base.{
  ◌>>=◌, dec_le, ℕ_discrete, ℕ, ◌+◌, ◌*◌, ◌%◌, ◌^◌, ◌≡◌, ◌≢◌, ◌<◌, ◌≤◌, inl, inr, refl, true, false,
  Option, none, some, List, [], ◌∷◌, ◌==◌, leb, if◌then◌else◌, arith, ==_of_ne, pick, Pick, Picked,
  pick-Picked, All, All-map, All-Pick, EachPair-Pick,
}
use doomsday_kernel_modules.PenguinMalloc.Config.{add_size, sub_size}
use doomsday_kernel_modules.PenguinMalloc.Freelist.{Memory, null, store}
use doomsday_kernel_modules.PenguinMalloc.SlabCaches.{SlabAlloc, Heap, sizeof_object_header}
use doomsday_kernel_modules.PenguinMalloc.Slab.{slab_alloc, slab_free}
use doomsday_kernel_modules.PenguinMalloc.Slab.Reuse.{slab_free_root}
use doomsday_kernel_modules.PenguinMalloc.Slab.Objects.{Apart, Apart-sym, HeaderIs}
use doomsday_kernel_modules.PenguinMalloc.Freelist.Chain.{Far, store-Far}
use doomsday_kernel_modules.PenguinMalloc.Slab.Kept.{Gives, slab_alloc-IsSlab}
use doomsday_kernel_modules.PenguinMalloc.Slab.Users.{
  Client, Request, ask, give_back, write, act, Serves, low_place,
}

-- The words inside the object at `q` are the same.
abbrev pub Untouched : (size : ℕ) → Memory → Memory → (q : ℕ) → Type 0
Untouched size words words' q = (a : ℕ) → q ≤ a → a + 8 ≤ q + size → words' a ≡ words a

-- The objects in use that a request is not about.
abbrev pub others : Request → Client → List ℕ
others ask s = s.live
others (give_back i) s = elim (pick i s.live) [ none ↦ s.live | some (p, rest) ↦ rest ]
others (write i offset value) s = elim (pick i s.live) [ none ↦ s.live | some (p, rest) ↦ rest ]

abbrev pub Spares : (size : ℕ) → Memory → List ℕ → Option Client → Type 0
Spares size words qs none = ⊥
Spares size words qs (some s) = All (Untouched size words s.heap.words) qs

-- A store into one object.
store-Untouched :
    (size p b v : ℕ) (words : Memory) (qs : List ℕ)
    → p ≤ b
    → b + 8 ≤ p + size
    → All (Apart size p) qs
    → All (Untouched size words (store words b v)) qs
store-Untouched size p b v words qs low high = All-map (Apart size p) qs (λ q apart a above below.
    let far : Far b a = elim apart [ inl h ↦ inl (omega arith) | inr h ↦ inr (omega arith) ] in
    store-Far words b v a far)

all_same : (size : ℕ) (words : Memory) (qs : List ℕ) → All (Untouched size words words) qs
all_same size words [] = tt
all_same size words (q ∷ qs) = ((λ a above below. refl), all_same size words qs)

module _ (cache size first room : ℕ) (ne : cache ≢ null) (header_fits : 8 ≤ size)
    (not_null : 1 ≤ first) (bounded : first + room * size < 2 ^ 64) where
  given-Spares :
      (words : Memory) (live : List ℕ) (r : Option (ℕ × SlabAlloc × Heap))
      → Gives cache size first room ne header_fits not_null bounded words live r
      → Spares size words live (
          r >>= λ (ptr, alloc, heap).
          some
            record { alloc = alloc; heap = heap; live = sub_size ptr sizeof_object_header ∷ live })
  given-Spares words live none gives = gives
  given-Spares words live (some (ptr, alloc, heap)) (p, free, taken, at, header_only, kept) =
      rw header_only
        (store-Untouched size p p cache words live (omega arith) (omega arith) kept.live_apart.0)

  asked-Spares :
      (s : Client)
      → Serves cache size first room ne header_fits not_null bounded (some s)
      → Spares size s.heap.words s.live (act ask s)
  asked-Spares s (free, taken, kept) = elim (ℕ_discrete s.alloc.first_free_cache null) [
    | yes none_free ↦
        let is_null : (s.alloc.first_free_cache == null) ≡ true = rw none_free refl in
        rw is_null (all_same size s.heap.words s.live)
    | no is_open ↦ rw (==_of_ne is_open) (
        given-Spares s.heap.words s.live (slab_alloc 2 s.alloc s.heap) (
          slab_alloc-IsSlab cache size first room ne header_fits not_null bounded s.alloc s.heap
            s.live free taken kept is_open))
  ]

  given_back-Spares :
      (s : Client) (p : ℕ) (rest : List ℕ)
      → Serves cache size first room ne header_fits not_null bounded (some s)
      → Pick s.live p rest
      → Spares size s.heap.words rest (
          slab_free s.alloc s.heap (add_size p sizeof_object_header) >>= λ (alloc, heap).
          some record { alloc = alloc; heap = heap; live = rest })
  given_back-Spares s p rest (free, taken, kept) picked =
      let (above, below) =
        low_place cache size first room ne header_fits not_null bounded s.alloc s.heap s.live rest
          free p taken kept picked in
      let (header, headers) = All-Pick (HeaderIs s.heap.words cache) picked kept.headers in
      let (apart, pairs) = EachPair-Pick (Apart size) (Apart-sym size) picked kept.live_apart in
      let ptr : (p + 8) % 2 ^ 64 ≡ p + 8 = omega arith in
      let run =
        slab_free_root s.alloc s.heap cache p kept.alone_behind kept.is_root (omega arith)
          (omega arith) header in
      rw (ptr, run) (store-Untouched size p p _ s.heap.words rest (omega arith) (omega arith) apart)

  written-Spares :
      (s : Client) (p offset value : ℕ) (rest : List ℕ)
      → Serves cache size first room ne header_fits not_null bounded (some s)
      → Pick s.live p rest
      → Spares size s.heap.words rest (
          if leb (sizeof_object_header + offset + 8) s.alloc.objsize
          then some record s {
            heap = record s.heap {
              words = store s.heap.words (p + sizeof_object_header + offset) value;
            };
          }
          else some s)
  written-Spares s p offset value rest (free, taken, kept) picked =
      let (apart, pairs) = EachPair-Pick (Apart size) (Apart-sym size) picked kept.live_apart in
      elim (dec_le (8 + offset + 8) s.alloc.objsize) [
        | yes fits ↦
            let of_size = kept.of_size in
            let inside : leb (8 + offset + 8) s.alloc.objsize ≡ true = ground arith in
            rw inside (
              store-Untouched size p (p + 8 + offset) value s.heap.words rest (omega arith)
                (omega arith) apart)
        | no outside ↦
            let not_inside : leb (8 + offset + 8) s.alloc.objsize ≡ false = ground arith in
            rw not_inside (all_same size s.heap.words rest)
      ]

  -- A request returns, and changes no word inside an object in use that it is not about, headers included.
  pub act-Spares :
      (r : Request) (s : Client)
      → Serves cache size first room ne header_fits not_null bounded (some s)
      → Spares size s.heap.words (others r s) (act r s)
  act-Spares ask s kept = asked-Spares s kept
  act-Spares (give_back i) s kept =
      elim (pick i s.live)
          as (λ r.
            Picked s.live r
            → Spares size s.heap.words (elim r [ none ↦ s.live | some (p, rest) ↦ rest ])
                (elim r [
                  | none ↦ some s
                  | some (p, rest) ↦
                      slab_free s.alloc s.heap (add_size p sizeof_object_header)
                      >>= λ (alloc, heap). some record { alloc = alloc; heap = heap; live = rest }
                ])) [
                  | none ↦ λ u. all_same size s.heap.words s.live
                  | some (p, rest) ↦ λ picked. given_back-Spares s p rest kept picked
                ]
        (pick-Picked i s.live)
  act-Spares (write i offset value) s kept =
      elim (pick i s.live)
          as (λ r.
            Picked s.live r
            → Spares size s.heap.words (elim r [ none ↦ s.live | some (p, rest) ↦ rest ])
                (elim r [
                  | none ↦ some s
                  | some (p, rest) ↦
                      if leb (sizeof_object_header + offset + 8) s.alloc.objsize
                      then some record s {
                        heap = record s.heap {
                          words = store s.heap.words (p + sizeof_object_header + offset) value;
                        };
                      }
                      else some s
                ])) [
                  | none ↦ λ u. all_same size s.heap.words s.live
                  | some (p, rest) ↦ λ picked. written-Spares s p offset value rest kept picked
                ]
        (pick-Picked i s.live)
