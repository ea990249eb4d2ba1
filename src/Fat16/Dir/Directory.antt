-- ===== src/Fat16/Dir/Directory.antt =====
-- A directory that can be read, with its entries: the root directory, or one in clusters.
use doomsday_kernel_modules.Base.{
  ℕ, zero, suc, ◌+◌, ◌*◌, ◌%◌, ◌^◌, ◌≡◌, ◌≤◌, ◌<◌, refl, Bool, true, false, Option, some, List, [],
  ◌∷◌, ◌++◌, ◌==◌, length, arith,
}
use doomsday_kernel_modules.Fat16.Layout.{
  wrap32, DirEntry, fat16_entries_per_sector, fat16_entries_per_cluster, fat16_root_sectors,
}
use doomsday_kernel_modules.Fat16.Cluster.{SbInfo}
use doomsday_kernel_modules.Fat16.Cluster.Chain.{ClusterChain}
use doomsday_kernel_modules.Fat16.Dir.{fat16_dir_walk}
use doomsday_kernel_modules.Fat16.Dir.Flat.{
  Located, block_entries, root_entries, visit, fat16_dir_walk-visit,
}
use doomsday_kernel_modules.Fat16.Dir.Chain.{chain_place, chain_entries, walk_chain-visit}

-- The directory that starts at the cluster `start` has the entries `es`. The root directory, at 0, lies in
-- sectors that can be read and consist of whole entries, fewer than 2^32. Another directory lies in a chain of
-- clusters, which the fuel reaches, has a buffer, and has fewer than 2^32 entries.
pub data IsDirectory (sb_bread : ℕ → Option (List ℕ)) (sbi : SbInfo) (allocated : Bool)
    (fuel start : ℕ) (es : List Located) : Type 0 where
  in_root :
      (blocks : ℕ → List ℕ) (total : ℕ)
      → start ≡ 0
      → fat16_root_sectors sbi.root_dir_entries sbi.bytes_per_sector ≡ some total
      → ((n : ℕ) → n < total → sb_bread (wrap32 (sbi.root_dir_start + n)) ≡ some (blocks n))
      → ((n : ℕ)
          → n < total
          → 32 * fat16_entries_per_sector sbi.bytes_per_sector ≤ length (blocks n))
      → total * fat16_entries_per_sector sbi.bytes_per_sector < 2 ^ 32
      → es ≡ root_entries total 0 blocks sbi
      → IsDirectory sb_bread sbi allocated fuel start es
  in_clusters :
      (chain : List (ℕ × List ℕ))
      → 0 < start
      → start < 2 ^ 16
      → allocated ≡ true
      → sbi.bytes_per_cluster ≡ sbi.sectors_per_cluster * sbi.bytes_per_sector
      → ClusterChain sb_bread sbi start chain
      → length chain ≤ fuel
      → length chain * fat16_entries_per_cluster sbi.bytes_per_cluster < 2 ^ 32
      → es ≡ chain_entries sbi chain 0
      → IsDirectory sb_bread sbi allocated fuel start es

-- The walk over a directory makes the calls for its entries in order.
pub fat16_dir_walk-IsDirectory :
    {S : Type 0} (cb : DirEntry → ℕ → ℕ → ℕ → S → ℕ × S) (sb_bread : ℕ → Option (List ℕ))
    (sbi : SbInfo) (allocated : Bool) (fuel start : ℕ) (es : List Located) (s : S)
    → IsDirectory sb_bread sbi allocated fuel start es
    → fat16_dir_walk cb sb_bread sbi allocated fuel start s ≡ visit cb es s
unfolding fat16_dir_walk
fat16_dir_walk-IsDirectory cb sb_bread sbi allocated fuel start es s
      (in_root blocks total is_root sectors readable whole small entries) =
    rw (is_root, entries)
      (fat16_dir_walk-visit cb sb_bread sbi blocks total readable whole small allocated fuel s
        sectors)
fat16_dir_walk-IsDirectory cb sb_bread sbi allocated fuel start es s
      (in_clusters chain positive below buffer size linked enough small entries) =
    let not_root : (start == 0) ≡ false = ground arith in
    let short : start % 65536 ≡ start = omega arith in
    rw (fat16_dir_walk, not_root, buffer, short, entries)
      (walk_chain-visit cb sb_bread sbi size fuel start 0 chain s linked enough (omega arith))

-- The numbers of the entries go up by one from `n` on.
abbrev pub Numbered : ℕ → List Located → Type 0
Numbered n [] = Unit
Numbered n (e ∷ es) = (e.number ≡ n) × Numbered (n + 1) es

block_entries-Numbered :
    (left i n : ℕ) (place : ℕ → ℕ × ℕ) (block : List ℕ) (es : List Located)
    → Numbered (n + left) es
    → Numbered n (block_entries left i block place n ++ es)
block_entries-Numbered zero i n place block es rest =
    let same : n + zero ≡ n = omega arith in rw same at rest
block_entries-Numbered (suc left) i n place block es rest =
    let same : n + suc left ≡ n + 1 + left = omega arith in
    let moved = rw same at rest in
    (refl, block_entries-Numbered left (i + 1) (n + 1) place block es moved)

root_entries-Numbered :
    (left n : ℕ) (blocks : ℕ → List ℕ) (sbi : SbInfo)
    → Numbered (n * fat16_entries_per_sector sbi.bytes_per_sector) (root_entries left n blocks sbi)
root_entries-Numbered zero n blocks sbi = tt
root_entries-Numbered (suc left) n blocks sbi =
    let eps = fat16_entries_per_sector sbi.bytes_per_sector in
    let rest = root_entries-Numbered left (n + 1) blocks sbi in
    let next : (n + 1) * eps ≡ n * eps + eps = omega arith in
    let behind = rw next at rest in
    block_entries-Numbered eps 0 (n * eps) (λ j. (wrap32 (sbi.root_dir_start + n), j)) (blocks n)
      (root_entries left (n + 1) blocks sbi) behind

chain_entries-Numbered :
    (chain : List (ℕ × List ℕ)) (sbi : SbInfo) (before : ℕ)
    → Numbered before (chain_entries sbi chain before)
chain_entries-Numbered [] sbi before = tt
chain_entries-Numbered ((cluster, block) ∷ chain) sbi before =
    let epc = fat16_entries_per_cluster sbi.bytes_per_cluster in
    block_entries-Numbered epc 0 before (chain_place sbi cluster) block
      (chain_entries sbi chain (before + epc)) (chain_entries-Numbered chain sbi (before + epc))

pub IsDirectory-Numbered :
    {sb_bread : ℕ → Option (List ℕ)} {sbi : SbInfo} {allocated : Bool} {fuel start : ℕ}
    (es : List Located)
    → IsDirectory sb_bread sbi allocated fuel start es
    → Numbered 0 es
IsDirectory-Numbered {sbi} es (in_root blocks total is_root sectors readable whole small entries) =
    let zero_before : 0 * fat16_entries_per_sector sbi.bytes_per_sector ≡ 0 = omega arith in
    let counted = root_entries-Numbered total 0 blocks sbi in
    let numbered : Numbered 0 (root_entries total 0 blocks sbi) = rw zero_before at counted in
    rw entries numbered
IsDirectory-Numbered {sbi} es
      (in_clusters chain positive below buffer size linked enough small entries) =
    rw entries (chain_entries-Numbered chain sbi 0)
