-- ===== src/PenguinMalloc/Buddy/Taking.antt =====
-- A block that is taken off a list leaves blocks that do not overlap.
use doomsday_kernel_modules.Base.{
  ℕ, ◌^◌, ◌≡◌, ◌≤◌, sym, ◌∙◌, some, List, ◌∷◌, All, EachPair, All-map, arith, get_elem?, set,
  length-set, get_elem?-set_self, get_elem?-set_ne,
}
use doomsday_kernel_modules.PenguinMalloc.BuddyUtil.Blocks.{IsArena, block_inside, to_pointer_sum}
use doomsday_kernel_modules.PenguinMalloc.Freelist.Chain.{Chain, Chain-Begins}
use doomsday_kernel_modules.PenguinMalloc.Buddy.{Halves}
use doomsday_kernel_modules.PenguinMalloc.Buddy.Pool.{
  Off, Off-sym, bytes, Places, relist, relist-All, Beside, InArena, IsPool,
}

module _ (begin k : ℕ) (arena : IsArena begin (2 ^ k)) (not_null : 1 ≤ begin) where
  pub place_inside : (l p : ℕ) → Places begin k l p → InArena begin k (p, bytes k l)
  place_inside l p (i, below, at) =
      let sum = to_pointer_sum arena l i below in
      let inside = block_inside (2 ^ k) l i below in (omega arith, omega arith)

  module _ (s : Halves) (free : ℕ → List ℕ) (used : List (ℕ × ℕ)) (l p : ℕ) (rest : List ℕ)
      (le : l ≤ k) (first : free l ≡ p ∷ rest) (pool : IsPool begin k s free used) where
    abbrev rest_free : ℕ → List ℕ
    rest_free = relist free l rest

    fewer : (P : ℕ → Type 0) (j : ℕ) → All P (free j) → All P (rest_free j)
    fewer P j all =
        relist-All free l rest (All P) j (λ e. let here = rw e at all in (rw first at here).1)
          (λ ne. all)

    pub pop-IsPool :
        IsPool begin k
          (record s { lists = set s.lists l (s.words p) })
          rest_free
          ((p, bytes k l) ∷ used)
    pop-IsPool =
        let placed = rw first at (pool.placed l le) in
        let pairs = rw first at (pool.pairs l le) in
        let (h, at, chain) = pool.heads l le in
        let (is_first, ne, once, behind) = Chain-Begins (rw first at chain) in
        let sized = pool.sized in
        record {
          sized = record {
            bytes = sized.bytes;
            bits_in = sized.bits_in;
            lists_in = rw (length-set s.lists l (s.words p)) sized.lists_in;
          };
          heads = λ m fits.
              relist-All free l rest
                (λ ys.
                  (h : ℕ) × (get_elem? (set s.lists l (s.words p)) m ≡ some h) × Chain s.words h ys)
                m
                (λ e. (
                  s.words p,
                  rw e (
                      get_elem?-set_self s.lists l (s.words p)
                        (let all = sized.lists_in in omega arith)),
                  behind,
                ))
                (λ other.
                  let (g, there, others) = pool.heads m fits in
                  (g, get_elem?-set_ne s.lists (s.words p) (λ e. other (sym e)) ∙ there, others));
          placed = λ m fits. fewer (Places begin k m) m (pool.placed m fits);
          pairs = λ m fits.
              relist-All free l rest (EachPair (λ x y. Off x (bytes k m) y (bytes k m))) m
                (λ e. rw e pairs.1) (λ other. pool.pairs m fits);
          across = λ a b fa fb ne.
              fewer (λ x. All (λ y. Off x (bytes k a) y (bytes k b)) (rest_free b)) a
                (All-map (λ x. All (λ y. Off x (bytes k a) y (bytes k b)) (free b)) (free a)
                  (λ x. fewer (λ y. Off x (bytes k a) y (bytes k b)) b) (pool.across a b fa fb ne));
          beside = (
            (λ m fits.
                relist-All free l rest (All (λ q. Off p (bytes k l) q (bytes k m))) m
                  (λ e. rw e pairs.0)
                  (λ other. (rw first at (pool.across l m le fits (λ e. other (sym e)))).0)),
            All-map (Beside k free) used
                (λ b off m fits. fewer (λ q. Off b.0 b.1 q (bytes k m)) m (off m fits)) pool.beside,
          );
          used_pairs = (
            All-map (Beside k free) used
                (λ b off. Off-sym b.0 b.1 p (bytes k l) (rw first at (off l le)).0) pool.beside,
            pool.used_pairs,
          );
          used_inside = (place_inside l p placed.0, pool.used_inside);
        }
