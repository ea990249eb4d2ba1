-- ===== src/Fat16/File/Whole.antt =====
-- What a read of a file gives, against the bytes of its clusters.
use doomsday_kernel_modules.Base.{
  ℕ, zero, suc, ◌+◌, ◌-◌, ◌*◌, ◌%◌, ◌^◌, ◌≤◌, ◌<◌, ◌≡◌, refl, ap, sym, ◌∙◌, true, false, Option,
  List, [], ◌∷◌, ◌++◌, arith, leb, ◌==◌, min, length, take, if◌then◌else◌, append_nil, append_assoc,
  length-append, length-take, dec_le, take_nil, take-append, take-min,
}
use doomsday_kernel_modules.Fat16.Cluster.{SbInfo}
use doomsday_kernel_modules.Fat16.Cluster.Chain.{
  ClusterChain, end, link, content, fat16_read_cluster-length,
}
use doomsday_kernel_modules.Fat16.File.{Read, copied, requested, read_loop, penguin_fat16_read_iter}

-- What is left of a file of fewer than 2^32 bytes behind the position, or what is asked for.
requested_inside :
    (count size pos : ℕ)
    → size < 2 ^ 32
    → pos ≤ size
    → requested count size pos ≡ min count (size - pos)
unfolding requested
requested_inside count size pos hs h = ground arith

-- The bytes that one more cluster gives.
out_step :
    (n size : ℕ) (out block rest : List ℕ)
    → length block ≡ size
    → (out ++ take (min size (n - length out)) block)
        ++ take (n - length (out ++ take (min size (n - length out)) block)) rest
      ≡ out ++ take (n - length out) (block ++ rest)
out_step n size out block rest whole =
    let k = n - length out in
    let joined = length-append out (take k block) in
    let taken = length-take k block in
    let cut : take (min size k) block ≡ take k block =
      ap (λ z. take (min z k) block) (sym whole) ∙ take-min k block in
    let left : n - length (out ++ take k block) ≡ k - length block = omega arith in
    rw (cut, left, take-append k block rest)
      (append_assoc out (take k block) (take (k - length block) rest))

all_taken : (n : ℕ) (out rest : List ℕ) → n ≤ length out → out ≡ out ++ take (n - length out) rest
all_taken n out rest full =
    let none_left : n - length out ≡ 0 = omega arith in rw none_left (sym (append_nil out))

full_or :
    (n : ℕ) (out rest : List ℕ) (onward : Read)
    → onward ≡ copied (out ++ take (n - length out) rest)
    → (if leb n (length out) then copied out else onward)
      ≡ copied (out ++ take (n - length out) rest)
full_or n out rest onward more = elim (dec_le n (length out)) [
  | yes full ↦
      let enough : leb n (length out) ≡ true = ground arith in
      rw enough (ap copied (all_taken n out rest full))
  | no not_full ↦ let short : leb n (length out) ≡ false = ground arith in rw short more
]

module _ (sb_bread : ℕ → Option (List ℕ)) (copy_to_iter : ℕ → ℕ)
    (takes_all : (n : ℕ) → copy_to_iter n ≡ n) (sbi : SbInfo)
    (size : sbi.bytes_per_cluster ≡ sbi.sectors_per_cluster * sbi.bytes_per_sector) where
  read_loop-content :
      (fuel n cluster : ℕ) (out : List ℕ) (chain : List (ℕ × List ℕ))
      → ClusterChain sb_bread sbi cluster chain
      → length chain ≤ fuel
      → read_loop sb_bread copy_to_iter sbi fuel n cluster out
        ≡ copied (out ++ take (n - length out) (content chain))
  unfolding read_loop
  read_loop-content zero n cluster out [] (end final) enough =
      let last : leb 65528 cluster ≡ true = ground arith in
      rw (read_loop, last, take_nil {A = ℕ} (n - length out), append_nil out) (ground arith)
  read_loop-content (suc fuel) n cluster out [] (end final) enough =
      let last : leb 65528 cluster ≡ true = ground arith in
      rw (read_loop, last, take_nil {A = ℕ} (n - length out), append_nil out) (ground arith)
  read_loop-content zero n cluster out (_ ∷ chain) linked enough = absurd (omega arith)
  read_loop-content (suc fuel) n cluster out ((c, block) ∷ chain) (link inside read next rest)
        enough =
      let not_last : leb 65528 cluster ≡ false = ground arith in
      let wanted = min sbi.bytes_per_cluster (n - length out) in
      let bytes = fat16_read_cluster-length sb_bread sbi cluster block read ∙ sym size in
      let same : (wanted == wanted) ≡ true = ground arith in
      let onward =
        read_loop-content fuel n _ (out ++ take wanted block) chain rest (omega arith)
        ∙ ap copied (out_step n sbi.bytes_per_cluster out block (content chain) bytes) in
      rw (read_loop, not_last, read)
        (full_or n out (block ++ content chain) _ (rw (takes_all wanted, same, next) onward))

  -- Where the bytes of a cluster are those of its sectors, the buffer is allocated, and the caller takes all that it
  -- is given: of a file of fewer than 2^32 bytes in a chain of clusters that the fuel reaches, a read at any
  -- position of the file gives the bytes from the start of the file on, as many as are asked for and as the file has
  -- behind the position, and moves the position by their number.
  pub penguin_fat16_read_iter-content :
      (fuel start file_size ki_pos count : ℕ) (chain : List (ℕ × List ℕ))
      → ClusterChain sb_bread sbi start chain
      → length chain ≤ fuel
      → start < 2 ^ 16
      → file_size < 2 ^ 32
      → ki_pos ≤ file_size
      → penguin_fat16_read_iter sb_bread copy_to_iter sbi true fuel start file_size ki_pos count ≡ (
        copied (take (min count (file_size - ki_pos)) (content chain)),
        ki_pos + length (take (min count (file_size - ki_pos)) (content chain)),
      )
  unfolding penguin_fat16_read_iter
  penguin_fat16_read_iter-content fuel start file_size ki_pos count chain linked enough short small
        inside =
      let low : start % 65536 ≡ start = omega arith in
      let loop =
        read_loop-content fuel (min count (file_size - ki_pos)) start [] chain linked enough in
      let all : min count (file_size - ki_pos) - 0 ≡ min count (file_size - ki_pos) = omega arith in
      rw (penguin_fat16_read_iter, requested_inside count file_size ki_pos small inside, low, loop)
        (rw all refl)
