-- ===== src/Fat16/Dir/Chain.antt =====
-- The walk over the clusters of a directory, against the flat list of its entries.
use doomsday_kernel_modules.Base.{
  ℕ, zero, suc, ◌+◌, ◌*◌, ◌^◌, ◌≡◌, ◌≤◌, ◌<◌, refl, ◌∙◌, true, false, Option, List, [], ◌∷◌, ◌++◌,
  leb, length, arith,
}
use doomsday_kernel_modules.Fat16.Layout.{
  wrap32, fat16_entries_per_sector, fat16_entries_per_cluster, fat16_cluster_sector,
  fat16_entry_sector, fat16_entry_idx,
}
use doomsday_kernel_modules.Fat16.Cluster.{SbInfo, ok, failed, eio, fault, fat16_next_cluster}
use doomsday_kernel_modules.Fat16.Cluster.Chain.{ClusterChain, end, link, fat16_read_cluster-length}
use doomsday_kernel_modules.Fat16.Dir.{DirEntry, failed_with, scan, walk_chain}
use doomsday_kernel_modules.Fat16.Dir.Flat.{Located, block_entries, visit, scan-visit, resume}

-- The sector and the index of an entry of a cluster.
abbrev pub chain_place : SbInfo → ℕ → ℕ → ℕ × ℕ
chain_place sbi cluster i =
    let eps = fat16_entries_per_sector sbi.bytes_per_sector in
    let cs = fat16_cluster_sector sbi.data_start cluster sbi.sectors_per_cluster in
    (fat16_entry_sector cs i eps, fat16_entry_idx i eps)

-- The entries of the clusters of a directory, behind `before` entries.
abbrev pub chain_entries : SbInfo → List (ℕ × List ℕ) → (before : ℕ) → List Located
chain_entries sbi [] before = []
chain_entries sbi ((cluster, block) ∷ chain) before =
    let epc = fat16_entries_per_cluster sbi.bytes_per_cluster in
    block_entries epc 0 block (chain_place sbi cluster) before
    ++ chain_entries sbi chain (before + epc)

-- Whole entries fit into the bytes of a cluster.
entries_fit :
    (sbi : SbInfo)
    → sbi.bytes_per_cluster ≡ sbi.sectors_per_cluster * sbi.bytes_per_sector
    → 32 * fat16_entries_per_cluster sbi.bytes_per_cluster
      ≤ sbi.sectors_per_cluster * sbi.bytes_per_sector
unfolding fat16_entries_per_cluster
entries_fit sbi size = omega arith

module _ {S : Type 0} (cb : DirEntry → ℕ → ℕ → ℕ → S → ℕ × S) (sb_bread : ℕ → Option (List ℕ))
    (sbi : SbInfo)
    (size : sbi.bytes_per_cluster ≡ sbi.sectors_per_cluster * sbi.bytes_per_sector) where
  pub walk_chain-visit :
      (fuel cluster before : ℕ) (chain : List (ℕ × List ℕ)) (s : S)
      → ClusterChain sb_bread sbi cluster chain
      → length chain ≤ fuel
      → before + length chain * fat16_entries_per_cluster sbi.bytes_per_cluster < 2 ^ 32
      → walk_chain cb sb_bread sbi fuel cluster before s
        ≡ visit cb (chain_entries sbi chain before) s
  unfolding walk_chain
  walk_chain-visit zero cluster before [] s (end final) enough small =
      let last : leb 65528 cluster ≡ true = ground arith in rw (walk_chain, last) refl
  walk_chain-visit (suc fuel) cluster before [] s (end final) enough small =
      let last : leb 65528 cluster ≡ true = ground arith in rw (walk_chain, last) refl
  walk_chain-visit zero cluster before ((c, block) ∷ chain) s linked enough small =
      absurd (omega arith)
  walk_chain-visit (suc fuel) cluster before ((c, block) ∷ chain) s (link inside read next rest)
        enough small =
      let epc = fat16_entries_per_cluster sbi.bytes_per_cluster in
      let not_last : leb 65528 cluster ≡ false = ground arith in
      let bytes = fat16_read_cluster-length sb_bread sbi cluster block read in
      let fits = entries_fit sbi size in
      let moved : wrap32 (before + epc) ≡ before + epc = omega arith in
      rw (walk_chain, not_last, read)
        (resume cb (chain_entries sbi chain (before + epc))
            (scan cb (chain_place sbi cluster) block epc 0 before s)
            (λ s'. elim (fat16_next_cluster sb_bread sbi cluster) [
              | failed e ↦ failed_with (elim e [ fault ↦ fault | _ ↦ eio ]) s'
              | ok cluster' ↦ walk_chain cb sb_bread sbi fuel cluster' (wrap32 (before + epc)) s'
            ])
            (λ s'.
              rw (next, moved)
                (walk_chain-visit fuel _ (before + epc) chain s' rest (omega arith) (omega arith)))
          ∙ scan-visit cb epc 0 block (chain_place sbi cluster) before
              (chain_entries sbi chain (before + epc)) s (omega arith) (omega arith))
