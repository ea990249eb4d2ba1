-- ===== src/Fat16/Layout.antt =====
-- penguin-fat16/kmodule/fat16.h and `fat16_make_ino` of inode.c: the boot sector, the directory entries,
-- and where they lie. `u32` values wrap; a division by zero is `none`.
pub mod Ino
mod Tests
use doomsday_kernel_modules.Base.{
  ℕ, ◌+◌, ◌-◌, ◌*◌, ◌/◌, ◌%◌, ◌^◌, ◌≤◌, ◌<◌, Bool, not, ◌||◌, Option, none, some, ◌>>=◌, List, leb,
  ◌==◌, if◌then◌else◌, length, get_or, take, drop, bit_and,
}

abbrev pub wrap32 : ℕ → ℕ
wrap32 n = n % 2 ^ 32

abbrev pub fat16_final_cluster : ℕ
fat16_final_cluster = 65528

abbrev pub fat16_attr_volume_id : ℕ
fat16_attr_volume_id = 8

abbrev pub fat16_attr_directory : ℕ
fat16_attr_directory = 16

abbrev pub fat16_attr_lfn : ℕ
fat16_attr_lfn = 15

abbrev pub fat16_deleted_magic : ℕ
fat16_deleted_magic = 229

-- `sizeof(fat16_direntry_t)`
abbrev pub direntry_size : ℕ
direntry_size = 32

-- The fields of the boot sector that the module reads.
pub record Bpb : Type 0 where
  pub bytes_per_sector : ℕ
  pub sectors_per_cluster : ℕ
  pub reserved_sectors : ℕ
  pub fat_count : ℕ
  pub root_dir_entries : ℕ
  pub sectors_per_fat : ℕ

-- The fields of a directory entry that the module reads.
pub record DirEntry : Type 0 where
  pub filename : List ℕ
  pub attr : ℕ
  pub first_cluster_low : ℕ
  pub file_size : ℕ

-- Little-endian numbers at a place of a block.
unfoldable pub le16 : List ℕ → ℕ → ℕ
le16 block at = get_or block at 0 + 256 * get_or block (at + 1) 0

unfoldable pub le32 : List ℕ → ℕ → ℕ
unfolding le16
le32 block at = le16 block at + 65536 * le16 block (at + 2)

-- The entry number `i` of a block; past its end there is none.
unfoldable pub entry_at : List ℕ → ℕ → Option DirEntry
unfolding le16 le32
entry_at block i =
    if leb (direntry_size * i + direntry_size) (length block)
    then some record {
      filename = take 11 (drop (direntry_size * i) block);
      attr = get_or block (direntry_size * i + 11) 0;
      first_cluster_low = le16 block (direntry_size * i + 26);
      file_size = le32 block (direntry_size * i + 28);
    }
    else none

unfoldable pub divide : ℕ → ℕ → Option ℕ
divide a b = if b == 0 then none else some (a / b)

unfoldable pub fat16_fat_sector : Bpb → ℕ
fat16_fat_sector bpb = bpb.reserved_sectors

unfoldable pub fat16_root_dir_sector : Bpb → ℕ
unfolding fat16_fat_sector
fat16_root_dir_sector bpb = wrap32 (fat16_fat_sector bpb + bpb.fat_count * bpb.sectors_per_fat)

unfoldable pub fat16_bytes_per_cluster : Bpb → ℕ
fat16_bytes_per_cluster bpb = wrap32 (bpb.bytes_per_sector * bpb.sectors_per_cluster)

unfoldable pub fat16_entries_per_sector : ℕ → ℕ
fat16_entries_per_sector bytes_per_sector = bytes_per_sector / direntry_size

unfoldable pub fat16_entries_per_cluster : ℕ → ℕ
fat16_entries_per_cluster bytes_per_cluster = bytes_per_cluster / direntry_size

-- On 64 bits, since `sizeof` is a `size_t`.
unfoldable pub fat16_root_sectors : ℕ → ℕ → Option ℕ
unfolding divide
fat16_root_sectors root_dir_entries bytes_per_sector = do
  sectors ← divide (root_dir_entries * direntry_size + bytes_per_sector - 1) bytes_per_sector
  some (wrap32 sectors)

unfoldable pub fat16_cluster_sector : ℕ → ℕ → ℕ → ℕ
fat16_cluster_sector data_start cluster sectors_per_cluster =
    wrap32 (data_start + wrap32 (cluster + 2 ^ 32 - 2) * sectors_per_cluster)

unfoldable pub fat16_entry_sector : ℕ → ℕ → ℕ → ℕ
fat16_entry_sector cluster_sector i entries_per_sector =
    wrap32 (cluster_sector + i / entries_per_sector)

unfoldable pub fat16_entry_idx : ℕ → ℕ → ℕ
fat16_entry_idx i entries_per_sector = i % entries_per_sector

unfoldable pub fat16_root_dir_sectors : Bpb → Option ℕ
unfolding fat16_root_sectors
fat16_root_dir_sectors bpb = fat16_root_sectors bpb.root_dir_entries bpb.bytes_per_sector

unfoldable pub fat16_data_sector : Bpb → Option ℕ
unfolding fat16_root_dir_sector fat16_root_dir_sectors
fat16_data_sector bpb = do
  sectors ← fat16_root_dir_sectors bpb
  some (wrap32 (fat16_root_dir_sector bpb + sectors))

unfoldable pub fat16_de_is_end : DirEntry → Bool
fat16_de_is_end de = get_or de.filename 0 0 == 0

unfoldable pub fat16_de_is_skip : DirEntry → Bool
fat16_de_is_skip de =
    (get_or de.filename 0 0 == fat16_deleted_magic)
    || ((de.attr == fat16_attr_lfn) || not (bit_and de.attr fat16_attr_volume_id == 0))

unfoldable pub fat16_de_is_dir : DirEntry → Bool
fat16_de_is_dir de = not (bit_and de.attr fat16_attr_directory == 0)

unfoldable pub fat16_make_ino : ℕ → ℕ → ℕ → ℕ
fat16_make_ino bytes_per_sector sector entry_index =
    (sector * bytes_per_sector + entry_index * direntry_size) % 2 ^ 64
