-- ===== src/PenguinMalloc/Slab/Users.antt =====
-- A slab with one cache under any sequence of allocs, frees and writes of its users.
use native.Mathlib.Nat.{mul-le-mul_right}
use doomsday_kernel_modules.Base.{
  ◌>>=◌, here, dec_le, ℕ_discrete, ℕ, ◌+◌, ◌*◌, ◌-◌, ◌%◌, ◌^◌, ◌≡◌, ◌≢◌, ◌<◌, ◌≤◌, refl, true,
  false, Option, none, some, List, [], ◌∷◌, ◌==◌, leb, if◌then◌else◌, arith, ==_of_ne, pick, Pick,
  Picked, pick-Picked, All-Pick,
}
use doomsday_kernel_modules.PenguinMalloc.Config.{add_size, sub_size}
use doomsday_kernel_modules.PenguinMalloc.Freelist.{Memory, null, store}
use doomsday_kernel_modules.PenguinMalloc.SlabCaches.{SlabAlloc, Heap, sizeof_object_header}
use doomsday_kernel_modules.PenguinMalloc.Slab.{slab_alloc, slab_free}
use doomsday_kernel_modules.PenguinMalloc.Slab.Reuse.{slab_free_root}
use doomsday_kernel_modules.PenguinMalloc.Slab.Objects.{Inside, HeaderIs, IsSlab}
use doomsday_kernel_modules.PenguinMalloc.Slab.Released.{freed-IsSlab, written-IsSlab}
use doomsday_kernel_modules.PenguinMalloc.Slab.Kept.{Gives, slab_alloc-IsSlab}

-- A slab with the objects in use, each by the address of its header; its user has the word behind it.
pub record Client : Type 0 where
  pub alloc : SlabAlloc
  pub heap : Heap
  pub live : List ℕ

-- What users do: ask for an object, give back the object number `i` of those in use, or write a word at an
-- offset of it.
pub data Request : Type 0 where
  ask : Request
  give_back : ℕ → Request
  write : (i offset value : ℕ) → Request

-- A request for an object is made while there is a first free cache, a write stays inside the object, and a
-- request with a number that no object has is left out.
abbrev pub act : Request → Client → Option Client
act ask s =
    let got : Option Client = slab_alloc 2 s.alloc s.heap >>= λ (ptr, alloc, heap).
    some record { alloc = alloc; heap = heap; live = sub_size ptr sizeof_object_header ∷ s.live } in
    if s.alloc.first_free_cache == null then some s else got
act (give_back i) s = elim (pick i s.live) [
  | none ↦ some s
  | some (p, rest) ↦ slab_free s.alloc s.heap (add_size p sizeof_object_header) >>= λ (alloc, heap).
      some record { alloc = alloc; heap = heap; live = rest }
]
act (write i offset value) s = elim (pick i s.live) [
  | none ↦ some s
  | some (p, rest) ↦
      if leb (sizeof_object_header + offset + 8) s.alloc.objsize
      then some record s {
        heap = record s.heap {
          words = store s.heap.words (p + sizeof_object_header + offset) value;
        };
      }
      else some s
]

abbrev pub act_all : List Request → Client → Option Client
act_all [] s = some s
act_all (r ∷ rs) s = act r s >>= act_all rs

module _ (cache size first room : ℕ) (ne : cache ≢ null) (header_fits : 8 ≤ size)
    (not_null : 1 ≤ first) (bounded : first + room * size < 2 ^ 64) where
  -- The users are served, and the slab is one with the objects that they have.
  abbrev pub Serves : Option Client → Type 0
  Serves none = ⊥
  Serves (some s) =
      (free : List ℕ) × (taken : ℕ) × IsSlab cache size first room s.alloc s.heap s.live free taken

  -- The addresses of an object in use do not wrap.
  pub low_place :
      (alloc : SlabAlloc) (heap : Heap) (live rest free : List ℕ) (p taken : ℕ)
      → IsSlab cache size first room alloc heap live free taken
      → Pick live p rest
      → (1 ≤ p) × (p + size < 2 ^ 64)
  low_place alloc heap live rest free p taken s picked =
      let ((above, below), others) =
        All-Pick (Inside first (first + taken * size) size) picked s.live_inside in
      let product = mul-le-mul_right {m = taken} {n = room} size s.within_room in
      (omega arith, omega arith)

  given :
      (words : Memory) (live : List ℕ) (r : Option (ℕ × SlabAlloc × Heap))
      → Gives cache size first room ne header_fits not_null bounded words live r
      → Serves (
          r >>= λ (ptr, alloc, heap).
          some
            record { alloc = alloc; heap = heap; live = sub_size ptr sizeof_object_header ∷ live })
  given words live none gives = gives
  given words live (some (ptr, alloc, heap)) (p, free, taken, at, header_only, kept) =
      let (above, below) = low_place alloc heap (p ∷ live) live free p taken kept here in
      let header : (ptr + 2 ^ 64 - 8) % 2 ^ 64 ≡ p = omega arith in (free, taken, rw header kept)

  asked : (s : Client) → Serves (some s) → Serves (act ask s)
  asked s (free, taken, kept) = elim (ℕ_discrete s.alloc.first_free_cache null) [
    | yes none_free ↦
        let is_null : (s.alloc.first_free_cache == null) ≡ true = rw none_free refl in
        rw is_null (free, taken, kept)
    | no is_open ↦ rw (==_of_ne is_open) (
        given s.heap.words s.live (slab_alloc 2 s.alloc s.heap) (
          slab_alloc-IsSlab cache size first room ne header_fits not_null bounded s.alloc s.heap
            s.live free taken kept is_open))
  ]

  given_back :
      (s : Client) (p : ℕ) (rest : List ℕ)
      → Serves (some s)
      → Pick s.live p rest
      → Serves (
          slab_free s.alloc s.heap (add_size p sizeof_object_header) >>= λ (alloc, heap).
          some record { alloc = alloc; heap = heap; live = rest })
  given_back s p rest (free, taken, kept) picked =
      let (above, below) = low_place s.alloc s.heap s.live rest free p taken kept picked in
      let (header, headers) = All-Pick (HeaderIs s.heap.words cache) picked kept.headers in
      let ptr : (p + 8) % 2 ^ 64 ≡ p + 8 = omega arith in
      let run =
        slab_free_root s.alloc s.heap cache p kept.alone_behind kept.is_root (omega arith)
          (omega arith) header in
      rw (ptr, run)
        (
          p ∷ free,
          taken,
          freed-IsSlab cache size first room ne header_fits not_null bounded s.alloc s.heap s.live
              rest free p taken kept picked,
        )

  written :
      (s : Client) (p offset value : ℕ) (rest : List ℕ)
      → Serves (some s)
      → Pick s.live p rest
      → Serves (
          if leb (sizeof_object_header + offset + 8) s.alloc.objsize
          then some record s {
            heap = record s.heap {
              words = store s.heap.words (p + sizeof_object_header + offset) value;
            };
          }
          else some s)
  written s p offset value rest (free, taken, kept) picked =
      elim (dec_le (8 + offset + 8) s.alloc.objsize) [
        | yes fits ↦
            let of_size = kept.of_size in
            let inside : leb (8 + offset + 8) s.alloc.objsize ≡ true = ground arith in
            rw inside (
              free,
              taken,
              written-IsSlab cache size first room ne header_fits not_null bounded s.alloc s.heap
                  s.live rest free p (p + 8 + offset) value taken kept picked (omega arith)
                  (omega arith),
            )
        | no outside ↦
            let not_inside : leb (8 + offset + 8) s.alloc.objsize ≡ false = ground arith in
            rw not_inside (free, taken, kept)
      ]

  -- Whatever a user does, the slab serves it.
  act-Serves : (r : Request) (s : Client) → Serves (some s) → Serves (act r s)
  act-Serves ask s kept = asked s kept
  act-Serves (give_back i) s kept =
      elim (pick i s.live)
          as (λ r.
            Picked s.live r
            → Serves (elim r [
              | none ↦ some s
              | some (p, rest) ↦
                  slab_free s.alloc s.heap (add_size p sizeof_object_header) >>= λ (alloc, heap).
                  some record { alloc = alloc; heap = heap; live = rest }
            ])) [ none ↦ λ u. kept | some (p, rest) ↦ λ picked. given_back s p rest kept picked ]
        (pick-Picked i s.live)
  act-Serves (write i offset value) s kept =
      elim (pick i s.live)
          as (λ r.
            Picked s.live r
            → Serves (elim r [
              | none ↦ some s
              | some (p, rest) ↦
                  if leb (sizeof_object_header + offset + 8) s.alloc.objsize
                  then some record s {
                    heap = record s.heap {
                      words = store s.heap.words (p + sizeof_object_header + offset) value;
                    };
                  }
                  else some s
            ])) [
              | none ↦ λ u. kept
              | some (p, rest) ↦ λ picked. written s p offset value rest kept picked
            ]
        (pick-Picked i s.live)

  pub act_all-Serves : (rs : List Request) (s : Client) → Serves (some s) → Serves (act_all rs s)
  act_all-Serves [] s kept = kept
  act_all-Serves (r ∷ rs) s kept =
      elim (act r s) as (λ o. Serves o → Serves (o >>= act_all rs)) [
        | none ↦ λ impossible. impossible
        | some s' ↦ λ kept'. act_all-Serves rs s' kept'
      ]
        (act-Serves r s kept)
