-- ===== src/PenguinMalloc/Freelist/Tests.antt =====
-- A short list of free blocks.
use doomsday_kernel_modules.Base.{◌≡◌, refl, none, some, [], ◌∷◌, arith, inl}
use doomsday_kernel_modules.PenguinMalloc.Freelist.{Memory, store, freelist_push, freelist_pop}
use doomsday_kernel_modules.PenguinMalloc.Freelist.Chain.{
  Chain, nil, cons, freelist_pop-freelist_push,
}

-- Blocks 8 and 16, 8 first.
abbrev words : Memory
words a = 0

two_free : Chain (store words 8 16) 8 (8 ∷ 16 ∷ [])
unfolding store
two_free = cons (omega arith) refl (inl (omega arith), tt) (cons (omega arith) refl tt nil)

no_list : freelist_push words none 8 ≡ (none, words)
unfolding freelist_push
no_list = refl

pop_push_example :
    (let (list, mem) = freelist_push words (some 8) 24 in freelist_pop mem list) ≡ (24, some 8)
pop_push_example = freelist_pop-freelist_push words 8 24 (omega arith)
