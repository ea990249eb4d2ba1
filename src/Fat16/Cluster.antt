-- ===== src/Fat16/Cluster.antt =====
-- `fat16_next_cluster` and `fat16_read_cluster` of penguin-fat16/kmodule/fat16.c, over a device that gives
-- the bytes of a block or fails. Accesses past a block and divisions by zero are `fault`.
pub mod Chain
use doomsday_kernel_modules.Base.{
  ℕ, zero, suc, ◌+◌, ◌*◌, ◌/◌, ◌%◌, Option, none, some, List, [], ◌++◌, leb, ◌==◌, if◌then◌else◌,
  length, take,
}
use doomsday_kernel_modules.Fat16.Layout.{wrap32, fat16_final_cluster, le16, fat16_cluster_sector}

-- `fat16_sb_info_t` of super.h
pub record SbInfo : Type 0 where
  pub fat_start : ℕ
  pub root_dir_start : ℕ
  pub data_start : ℕ
  pub sectors_per_cluster : ℕ
  pub bytes_per_cluster : ℕ
  pub root_dir_entries : ℕ
  pub bytes_per_sector : ℕ
  pub fat_count : ℕ

pub data IoError : Type 0 where
  eio enomem einval : IoError
  fault : IoError

pub data Io {ℓ} (A : Type ℓ) : Type ℓ where
  ok : A → Io A
  failed : IoError → Io A

module _ (sb_bread : ℕ → Option (List ℕ)) where
  -- The number `offset` of a sector of the table.
  unfoldable pub fat_entry : ℕ → ℕ → Io ℕ
  unfolding le16
  fat_entry fat_sector offset = elim (sb_bread fat_sector) [
    | none ↦ failed eio
    | some block ↦
        if leb (2 * offset + 2) (length block) then ok (le16 block (2 * offset)) else failed fault
  ]

  unfoldable pub fat16_next_cluster : SbInfo → ℕ → Io ℕ
  unfolding fat_entry
  fat16_next_cluster sbi cluster =
      let ent_per_sec = sbi.bytes_per_sector / 2 in
      if ent_per_sec == 0
      then failed fault
      else fat_entry (wrap32 (sbi.fat_start + cluster / ent_per_sec)) (cluster % ent_per_sec)

  -- The sectors of a cluster from number `i` on, behind what the buffer has.
  unfoldable pub read_sectors : SbInfo → ℕ → ℕ → ℕ → List ℕ → Io (List ℕ)
  read_sectors sbi sector zero i buf = ok buf
  read_sectors sbi sector (suc left) i buf = elim (sb_bread (wrap32 (sector + i))) [
    | none ↦ failed eio
    | some block ↦
        let rest = read_sectors sbi sector left (i + 1) (buf ++ take sbi.bytes_per_sector block) in
        if leb sbi.bytes_per_sector (length block) then rest else failed fault
  ]

  unfoldable pub fat16_read_cluster : SbInfo → ℕ → Io (List ℕ)
  unfolding read_sectors
  fat16_read_cluster sbi cluster =
      if leb fat16_final_cluster cluster
      then failed einval
      else read_sectors sbi (fat16_cluster_sector sbi.data_start cluster sbi.sectors_per_cluster)
          sbi.sectors_per_cluster 0 []
