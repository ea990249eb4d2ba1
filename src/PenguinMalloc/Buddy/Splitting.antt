-- ===== src/PenguinMalloc/Buddy/Splitting.antt =====
-- A round of the splitting loop of `buddy_alloc` leaves blocks that do not overlap.
use doomsday_kernel_modules.PenguinMalloc.Util.Powers.{two-pow-pos}
use native.Mathlib.Nat.{pow-suc}
use mathlib.Core.Path.{subst}
use doomsday_kernel_modules.Base.{
  ℕ, suc, ◌+◌, ◌-◌, ◌*◌, ◌^◌, ◌≡◌, ◌≢◌, ◌<◌, ◌≤◌, inl, refl, sym, ◌∙◌, some, List, ◌∷◌, All,
  EachPair, All-map, All-zip, arith, get_elem?,
}
use doomsday_kernel_modules.PenguinMalloc.BuddyUtil.{block_size, to_pointer}
use doomsday_kernel_modules.PenguinMalloc.BuddyUtil.Blocks.{
  IsArena, split_children, block_size_halves, block_size_pow,
}
use doomsday_kernel_modules.PenguinMalloc.Freelist.Chain.{
  Chain, FarFrom, freelist_push-Chain, freelist_push_kept,
}
use doomsday_kernel_modules.PenguinMalloc.Buddy.{Halves, split_step}
use doomsday_kernel_modules.PenguinMalloc.Buddy.Step.{HasSplit, split_step-HasSplit}
use doomsday_kernel_modules.PenguinMalloc.Buddy.Pool.{
  Off, Off-sym, Off-part, Off-FarFrom, bytes, bytes_word, Places, relist, relist-All, Beside,
  OffBlock, IsPool,
}

module _ (begin k : ℕ) (arena : IsArena begin (2 ^ k)) (not_null : 1 ≤ begin) where
  module _ (s : Halves) (free : ℕ → List ℕ) (used : List (ℕ × ℕ)) (l p i : ℕ) (deep : l < k)
      (below : i < 2 ^ l) (at : p ≡ to_pointer begin l i (2 ^ k))
      (pool : IsPool begin k s free ((p, bytes k l) ∷ used)) where
    abbrev right : ℕ
    right = to_pointer begin (suc l) (i * 2 + 1) (2 ^ k)

    abbrev pub split_free : ℕ → List ℕ
    split_free = relist free (suc l) (right ∷ free (suc l))

    halves :
        (right ≡ p + bytes k (suc l))
        × (bytes k l ≡ bytes k (suc l) + bytes k (suc l))
        × (0 < bytes k (suc l))
    halves =
        let even = block_size_halves k l deep in
        let (same, half) = split_children arena l i below even in
        let some_pages : 0 < block_size (suc l) (2 ^ k) =
          rw (block_size_pow k (suc l) deep) (two-pow-pos (k - suc l)) in
        (omega arith, omega arith, omega arith)

    more : (P : ℕ → Type 0) (j : ℕ) → (j ≡ suc l → P right) → All P (free j) → All P (split_free j)
    more P j new all =
        relist-All free (suc l) (right ∷ free (suc l)) (All P) j (λ e. (new e, rw e at all))
          (λ ne. all)

    -- The right half beside the free blocks and the blocks in use.
    right-Beside : Beside k free (right, bytes k (suc l))
    right-Beside m fits =
        let (is_right, twice, positive) = halves in
        All-map (λ q. Off p (bytes k l) q (bytes k m)) (free m)
          (λ q.
            Off-part p (bytes k l) q (bytes k m) right (bytes k (suc l)) (omega arith)
              (omega arith))
          (pool.beside.0 m fits)

    left-Beside : Beside k free (p, bytes k (suc l))
    left-Beside m fits =
        let (is_right, twice, positive) = halves in
        All-map (λ q. Off p (bytes k l) q (bytes k m)) (free m)
          (λ q.
            Off-part p (bytes k l) q (bytes k m) p (bytes k (suc l)) (omega arith) (omega arith))
          (pool.beside.0 m fits)

    out : (m : ℕ) → m ≤ k → FarFrom right (free m)
    out m fits =
        Off-FarFrom right (bytes k (suc l)) (bytes k m) (free m) (bytes_word k (suc l) deep)
          (bytes_word k m fits) (right-Beside m fits)

    split_across :
        (a b : ℕ)
        → a ≤ k
        → b ≤ k
        → a ≢ b
        → All (λ x. All (λ y. Off x (bytes k a) y (bytes k b)) (split_free b)) (split_free a)
    split_across a b fa fb ne =
        more (λ x. All (λ y. Off x (bytes k a) y (bytes k b)) (split_free b)) a
          (λ e.
            more (λ y. Off right (bytes k a) y (bytes k b)) b (λ e'. absurd (ne (e ∙ sym e')))
              (rw e (right-Beside b fb)))
          (All-zip (λ x. Off right (bytes k (suc l)) x (bytes k a)) (free a)
            (λ x to_right to_b.
              more (λ y. Off x (bytes k a) y (bytes k b)) b
                (λ e. rw e (Off-sym right (bytes k (suc l)) x (bytes k a) to_right)) to_b)
            (right-Beside a fa) (pool.across a b fa fb ne))

    split_heads :
        (s' : Halves) (step : HasSplit begin (2 ^ k) k l i s pool.sized deep below s') (m : ℕ)
        → m ≤ k
        → (h : ℕ) × (get_elem? s'.lists m ≡ some h) × Chain s'.words h (split_free m)
    split_heads s' step m fits =
        let (is_right, twice, positive) = halves in
        let inside = pool.used_inside.0 in
        let (g, there, list) = pool.heads (suc l) deep in
        let words = step.words g there in
        let pushed = freelist_push-Chain right (omega arith) (out (suc l) deep) list in
        relist-All free (suc l) (right ∷ free (suc l))
          (λ ys. (h : ℕ) × (get_elem? s'.lists m ≡ some h) × Chain s'.words h ys) m
          (λ e. (right, rw e step.pushed, rw words pushed.1))
          (λ other.
            let (h, here, others) = pool.heads m fits in
            (
              h,
              step.kept m other ∙ here,
              rw words (freelist_push_kept g right (omega arith) (out m fits) others),
            ))

    -- A round of the splitting loop on a block in use keeps its left half in use.
    pub split-IsPool :
        (s' : Halves) × (split_step begin (2 ^ k) l i s ≡ some s')
        × IsPool begin k s' split_free ((p, bytes k (suc l)) ∷ used)
    split-IsPool =
        let (s', step) = split_step-HasSplit begin (2 ^ k) k l i s pool.sized deep below in
        let (is_right, twice, positive) = halves in
        let right_below : i * 2 + 1 < 2 ^ suc l = omega (arith, pow-suc 2 l) in
        let (low, high) = pool.used_inside.0 in
        (
          s',
          step.run,
          record {
            sized = step.still_sized;
            heads = split_heads s' step;
            placed = λ m fits.
                more (Places begin k m) m (λ e. rw e (i * 2 + 1, right_below, refl))
                  (pool.placed m fits);
            pairs = λ m fits.
                relist-All free (suc l) (right ∷ free (suc l))
                  (EachPair (λ x y. Off x (bytes k m) y (bytes k m))) m
                  (λ e.
                    subst
                      (λ n.
                        EachPair (λ x y. Off x (bytes k n) y (bytes k n)) (right ∷ free (suc l)))
                      (sym e) (right-Beside (suc l) deep, pool.pairs (suc l) deep))
                  (λ other. pool.pairs m fits);
            across = split_across;
            beside = (
              (λ m fits.
                  more (λ q. Off p (bytes k (suc l)) q (bytes k m)) m (λ e. inl (omega arith))
                    (left-Beside m fits)),
              All-zip (OffBlock (p, bytes k l)) used
                  (λ b off beside m fits.
                    more (λ q. Off b.0 b.1 q (bytes k m)) m
                      (λ e. rw e (
                        Off-sym right (bytes k (suc l)) b.0 b.1 (
                          Off-part p (bytes k l) b.0 b.1 right (bytes k (suc l)) (omega arith)
                            (omega arith) off)))
                      (beside m fits))
                  pool.used_pairs.0 pool.beside.1,
            );
            used_pairs = (
              All-map (OffBlock (p, bytes k l)) used
                  (λ b.
                    Off-part p (bytes k l) b.0 b.1 p (bytes k (suc l)) (omega arith) (omega arith))
                  pool.used_pairs.0,
              pool.used_pairs.1,
            );
            used_inside = ((omega arith, omega arith), pool.used_inside.1);
          },
        )
