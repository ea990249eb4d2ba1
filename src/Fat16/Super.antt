-- ===== src/Fat16/Super.antt =====
-- penguin-fat16/kmodule/super.c: mounting a volume and letting it go, by what the kernel answers, with a log
-- of what is allocated and freed; and main.c, which registers the file system.
pub mod Mount
mod Tests
use doomsday_kernel_modules.Base.{
  ◌>>=◌, ℕ, ◌+◌, ◌≡◌, ◌&&◌, Bool, true, false, Option, none, some, List, [], ◌∷◌, ◌++◌, ◌==◌,
  if◌then◌else◌, get_or, Act, takes, gives,
}
use doomsday_kernel_modules.Fat16.Layout.{
  Bpb, le16, fat16_fat_sector, fat16_root_dir_sector, fat16_bytes_per_cluster, fat16_data_sector,
}
use doomsday_kernel_modules.Fat16.Cluster.{SbInfo, IoError, eio, enomem, einval}
use doomsday_kernel_modules.Fat16.Inode.{Inode, penguin_fat16_get_root_inode}

-- The fields of `struct super_block` that the module writes, less `s_magic` and `s_op`, which are constants.
pub record SuperBlock : Type 0 where
  pub s_fs_info : Option SbInfo
  pub s_rdonly : Bool
  pub s_blocksize : ℕ
  pub s_blocksize_bits : ℕ
  pub s_root : Option Inode

-- What the kernel answers: whether an allocation or a call succeeds, and the bytes of a block.
pub record Kernel : Type 0 where
  pub kzalloc_info : Bool
  pub sb_set_blocksize : Bool
  pub sb_bread : ℕ → Option (List ℕ)
  pub ilog2 : ℕ → ℕ
  pub new_inode : Bool
  pub kzalloc_inode : Bool
  pub d_make_root : Bool

-- How a mount ends. A crash is a division by zero, or `d_make_root` on an error pointer.
pub data Mounted : Type 0 where
  success : Mounted
  error : IoError → Mounted
  crash : Mounted

-- What the mount holds in the kernel.
pub data Held : Type 0 where
  sb_info buffer root_inode root_info : Held

pub record Filled : Type 0 where
  pub outcome : Mounted
  pub sb : SuperBlock
  pub log : List (Act Held)

-- The boot sector in its block, at the places of `fat16_bpb_t`.
unfoldable pub read_bpb : List ℕ → Bpb
read_bpb b_data = record {
  bytes_per_sector = le16 b_data 11;
  sectors_per_cluster = get_or b_data 13 0;
  reserved_sectors = le16 b_data 14;
  fat_count = get_or b_data 16 0;
  root_dir_entries = le16 b_data 17;
  sectors_per_fat = le16 b_data 22;
}

-- The fields of `sbi`; `none` is a division by zero.
unfoldable pub read_sb_info : Bpb → Option SbInfo
read_sb_info bpb = do
  data_start ← fat16_data_sector bpb
  some record {
    fat_start = fat16_fat_sector bpb;
    root_dir_start = fat16_root_dir_sector bpb;
    data_start = data_start;
    sectors_per_cluster = bpb.sectors_per_cluster;
    bytes_per_cluster = fat16_bytes_per_cluster bpb;
    root_dir_entries = bpb.root_dir_entries;
    bytes_per_sector = bpb.bytes_per_sector;
    fat_count = bpb.fat_count;
  }

-- From the label `err_free_sbi` on.
unfoldable pub err_free_sbi : IoError → SuperBlock → List (Act Held) → Filled
err_free_sbi ret sb log = record {
  outcome = error ret;
  sb = record sb { s_fs_info = none };
  log = log ++ gives sb_info ∷ [];
}

-- What `penguin_fat16_iget` takes for the root inode, which it puts back where its info gets no memory.
unfoldable pub iget_log : Bool → Bool → List (Act Held)
iget_log false kzalloc = []
iget_log true false = takes root_inode ∷ gives root_inode ∷ []
iget_log true true = takes root_inode ∷ takes root_info ∷ []

-- `i_private` of an inode that is evicted, and the `kfree` of it, which does nothing for NULL.
unfoldable pub penguin_fat16_evict_inode : Option Inode → Option Inode × List (Act Held)
penguin_fat16_evict_inode none = (none, [])
penguin_fat16_evict_inode (some i_private) = (none, gives root_info ∷ [])

-- The last `iput` of the root inode: as the kernel documents it, the inode is evicted, by the function of the
-- module, and freed.
unfoldable pub iput_root : Inode → List (Act Held)
unfolding penguin_fat16_evict_inode
iput_root inode = (penguin_fat16_evict_inode (some inode)).1 ++ gives root_inode ∷ []

-- The part with the root inode, which `d_make_root` puts where it fails, as the kernel documents it.
-- Without memory it is an error pointer, which the test for NULL lets pass.
unfoldable pub make_root : Kernel → SuperBlock → List (Act Held) → Filled
unfolding iget_log iput_root
make_root kernel sb log =
    let with_root = log ++ iget_log kernel.new_inode kernel.kzalloc_inode in
    elim (penguin_fat16_get_root_inode kernel.new_inode kernel.kzalloc_inode) [
      | none ↦ record { outcome = crash; sb = sb; log = with_root }
      | some root ↦
          if kernel.d_make_root
          then record { outcome = success; sb = record sb { s_root = some root }; log = with_root }
          else err_free_sbi enomem sb (with_root ++ iput_root root)
    ]

-- The part with the boot sector.
unfoldable pub read_vbr : Kernel → SuperBlock → List ℕ → List (Act Held) → Filled
read_vbr kernel sb b_data log = elim (read_sb_info (read_bpb b_data)) [
  | none ↦ record { outcome = crash; sb = sb; log = log }
  | some sbi ↦
      make_root kernel
        (record sb {
          s_fs_info = some sbi;
          s_rdonly = true;
          s_blocksize = sbi.bytes_per_sector;
          s_blocksize_bits = kernel.ilog2 sbi.bytes_per_sector;
        })
        (log ++ gives buffer ∷ [])
]

-- `sbi` before its fields are read.
abbrev pub zeroed : SbInfo
zeroed = record {
  fat_start = 0;
  root_dir_start = 0;
  data_start = 0;
  sectors_per_cluster = 0;
  bytes_per_cluster = 0;
  root_dir_entries = 0;
  bytes_per_sector = 0;
  fat_count = 0;
}

unfoldable pub penguin_fat16_fill_super : Kernel → SuperBlock → Filled
penguin_fat16_fill_super kernel sb =
    let with_info = record sb { s_fs_info = some zeroed } in
    let sized : Filled = elim (kernel.sb_bread 0) [
      | none ↦ err_free_sbi eio with_info (takes sb_info ∷ [])
      | some b_data ↦ read_vbr kernel with_info b_data (takes sb_info ∷ takes buffer ∷ [])
    ] in
    if kernel.kzalloc_info
    then (if kernel.sb_set_blocksize
        then sized
        else err_free_sbi einval with_info (takes sb_info ∷ []))
    else record { outcome = error enomem; sb = sb; log = [] }

unfoldable pub penguin_fat16_put_super : SuperBlock → SuperBlock × List (Act Held)
penguin_fat16_put_super sb = (record sb { s_fs_info = none }, gives sb_info ∷ [])

-- The unmounting, as the kernel documents it: the last `iput` of the root inode, and then `put_super`.
unfoldable pub unmount : SuperBlock → List (Act Held)
unfolding iput_root penguin_fat16_put_super
unmount sb =
    let root : List (Act Held) = elim sb.s_root [ none ↦ [] | some inode ↦ iput_root inode ] in
    root ++ (penguin_fat16_put_super sb).1

-- `register_filesystem` of main.c, by the error that it returns, 0 for none: what `penguin_fat16_init`
-- returns, and whether the file system is registered.
unfoldable pub penguin_fat16_init : ℕ → ℕ × Bool
penguin_fat16_init register_filesystem = (register_filesystem, register_filesystem == 0)

unfoldable pub penguin_fat16_exit : Bool → Bool
penguin_fat16_exit registered = false
