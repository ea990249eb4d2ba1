-- ===== src/Fat16/Cluster/Chain.antt =====
-- The clusters of a file or a directory, as the table links them.
use doomsday_kernel_modules.Base.{
  ℕ, zero, suc, ◌+◌, ◌*◌, ◌≤◌, ◌<◌, ◌≡◌, Option, none, some, List, [], ◌∷◌, ◌++◌, leb, length, take,
  length-append, length-take, arith, if◌then◌else◌,
}
use doomsday_kernel_modules.Fat16.Layout.{fat16_final_cluster, fat16_cluster_sector, wrap32}
use doomsday_kernel_modules.Fat16.Cluster.{
  SbInfo, Io, ok, failed, eio, fault, fat16_next_cluster, read_sectors, fat16_read_cluster,
}

module _ (sb_bread : ℕ → Option (List ℕ)) (sbi : SbInfo) where
  -- From a cluster on, the table leads through these clusters, with their bytes, to an end marker, and all
  -- of it can be read.
  pub data ClusterChain : ℕ → List (ℕ × List ℕ) → Type 0 where
    end : {cluster : ℕ} → fat16_final_cluster ≤ cluster → ClusterChain cluster []
    link :
        {cluster next : ℕ} {block : List ℕ} {chain : List (ℕ × List ℕ)}
        → cluster < fat16_final_cluster
        → fat16_read_cluster sb_bread sbi cluster ≡ ok block
        → fat16_next_cluster sb_bread sbi cluster ≡ ok next
        → ClusterChain next chain
        → ClusterChain cluster ((cluster, block) ∷ chain)

  sector_step :
      (left i : ℕ) (buf block : List ℕ) (sector : ℕ) (r : Option (List ℕ))
      → ((b : List ℕ)
          → read_sectors sb_bread sbi sector left (i + 1) (buf ++ take sbi.bytes_per_sector b)
            ≡ ok block
          → length block
            ≡ length (buf ++ take sbi.bytes_per_sector b) + left * sbi.bytes_per_sector)
      → (◌≡◌ {A = Io (List ℕ)}
          (elim r [
            | none ↦ failed eio
            | some b ↦
                if leb sbi.bytes_per_sector (length b)
                then read_sectors sb_bread sbi sector left
                    (i + 1)
                    (buf ++ take sbi.bytes_per_sector b)
                else failed fault
          ])
          (ok block))
      → length block ≡ length buf + suc left * sbi.bytes_per_sector
  sector_step left i buf block sector none next read = ground arith
  sector_step left i buf block sector (some b) next read =
      let joined = length-append buf (take sbi.bytes_per_sector b) in
      let taken = length-take sbi.bytes_per_sector b in
      let go = next b in ground (arith, joined, taken, go)

  read_sectors-length :
      (left sector i : ℕ) (buf block : List ℕ)
      → read_sectors sb_bread sbi sector left i buf ≡ ok block
      → length block ≡ length buf + left * sbi.bytes_per_sector
  unfolding read_sectors
  read_sectors-length zero sector i buf block read = ground arith
  read_sectors-length (suc left) sector i buf block read =
      sector_step left i buf block sector (sb_bread (wrap32 (sector + i)))
        (λ b. read_sectors-length left sector (i + 1) (buf ++ take sbi.bytes_per_sector b) block)
        read

  -- A cluster that is read has the bytes of all its sectors.
  pub fat16_read_cluster-length :
      (cluster : ℕ) (block : List ℕ)
      → fat16_read_cluster sb_bread sbi cluster ≡ ok block
      → length block ≡ sbi.sectors_per_cluster * sbi.bytes_per_sector
  unfolding fat16_read_cluster
  fat16_read_cluster-length cluster block read =
      let all =
        read_sectors-length sbi.sectors_per_cluster
          (fat16_cluster_sector sbi.data_start cluster sbi.sectors_per_cluster) 0 [] block in
      ground (arith, all)

abbrev pub content : List (ℕ × List ℕ) → List ℕ
content [] = []
content ((cluster, block) ∷ chain) = block ++ content chain
