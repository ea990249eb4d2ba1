-- ===== src/Fat16/Super/Mount.antt =====
-- What a mount leaves, whether it succeeds or not.
use doomsday_kernel_modules.Base.{
  ℕ, ◌+◌, ◌*◌, ◌/◌, ◌-◌, ◌≡◌, ◌≢◌, refl, Bool, true, false, Option, none, some, List, [], ◌∷◌, ◌++◌,
  arith, replay, Act, takes, ◌↔◌, ◌==◌, ◌⊎◌, inl, inr, ◌&&◌, ℕ_discrete, ==_of_ne,
}
use doomsday_kernel_modules.Fat16.Layout.{
  Bpb, divide, wrap32, fat16_data_sector, fat16_root_dir_sector, fat16_root_dir_sectors,
  fat16_root_sectors, fat16_fat_sector, fat16_bytes_per_cluster,
}
use doomsday_kernel_modules.Fat16.Inode.{penguin_fat16_get_root_inode, penguin_fat16_iget}
use doomsday_kernel_modules.Fat16.Super.{
  SuperBlock, Kernel, success, error, crash, Held, sb_info, buffer, root_inode, root_info, unmount,
  iput_root, iget_log, penguin_fat16_evict_inode, Filled, read_bpb, zeroed, read_sb_info,
  err_free_sbi, make_root, read_vbr, penguin_fat16_fill_super, penguin_fat16_put_super,
}

abbrev code : Held → ℕ
code sb_info = 0
code buffer = 1
code root_inode = 2
code root_info = 3

abbrev pub same : Held → Held → Bool
same x y = code x == code y

-- What is held after a log, from nothing on; `none` if something was freed that was not held.
abbrev pub held_after : List (Act Held) → Option (List Held)
held_after log = replay same log []

-- A failed mount holds nothing; a mounted volume holds `sbi` and the root inode with its info, until it is
-- unmounted.
abbrev pub IsBalanced : Filled → Type 0
IsBalanced filled = elim filled.outcome [
  | success ↦
      (held_after filled.log ≡ some (root_info ∷ root_inode ∷ sb_info ∷ []))
      × (held_after (filled.log ++ unmount filled.sb) ≡ some [])
      × (filled.sb.s_rdonly ≡ true)
  | error ret ↦ (held_after filled.log ≡ some []) × (filled.sb.s_fs_info ≡ none)
  | crash ↦ Unit
]

-- For a super block without info: a mount that fails and does not crash has freed `sbi`, the buffer, the root
-- inode and its info, as far as it had them, and leaves no info; one that succeeds is read-only and holds
-- `sbi`, the root inode and its info, which the unmounting frees.
pub penguin_fat16_fill_super-IsBalanced :
    (kernel : Kernel) (sb : SuperBlock)
    → sb.s_fs_info ≡ none
    → IsBalanced (penguin_fat16_fill_super kernel sb)
unfolding penguin_fat16_fill_super err_free_sbi read_vbr make_root penguin_fat16_put_super unmount
    iput_root iget_log penguin_fat16_evict_inode penguin_fat16_get_root_inode penguin_fat16_iget
penguin_fat16_fill_super-IsBalanced kernel sb empty = ground arith

read_sb_info_zero : (bpb : Bpb) → bpb.bytes_per_sector ≡ 0 → read_sb_info bpb ≡ none
unfolding read_sb_info fat16_data_sector fat16_root_dir_sectors fat16_root_sectors divide
read_sb_info_zero bpb zero_bytes = rw zero_bytes refl

read_sb_info-some :
    (bpb : Bpb)
    → bpb.bytes_per_sector ≢ 0
    → read_sb_info bpb
      ≡ some record {
        fat_start = fat16_fat_sector bpb;
        root_dir_start = fat16_root_dir_sector bpb;
        data_start = wrap32 (
            fat16_root_dir_sector bpb
            + wrap32
                ((bpb.root_dir_entries * 32 + bpb.bytes_per_sector - 1) / bpb.bytes_per_sector));
        sectors_per_cluster = bpb.sectors_per_cluster;
        bytes_per_cluster = fat16_bytes_per_cluster bpb;
        root_dir_entries = bpb.root_dir_entries;
        bytes_per_sector = bpb.bytes_per_sector;
        fat_count = bpb.fat_count;
      }
unfolding read_sb_info fat16_data_sector fat16_root_dir_sectors fat16_root_sectors divide
read_sb_info-some bpb ne = rw (==_of_ne ne) refl

-- How `make_root` and `read_vbr` come to a crash.
make_root_crash_iff :
    (kernel : Kernel) (sb : SuperBlock) (log : List (Act Held))
    → ((make_root kernel sb log).outcome ≡ crash)
      ↔ ((kernel.new_inode && kernel.kzalloc_inode) ≡ false)
unfolding make_root err_free_sbi penguin_fat16_get_root_inode penguin_fat16_iget
make_root_crash_iff kernel sb log = ground arith

read_vbr_crash_iff :
    (kernel : Kernel) (sb : SuperBlock) (b_data : List ℕ) (log : List (Act Held))
    → ((read_vbr kernel sb b_data log).outcome ≡ crash) ↔ (
        ((read_bpb b_data).bytes_per_sector ≡ 0)
        ⊎ ((kernel.new_inode && kernel.kzalloc_inode) ≡ false))
unfolding read_vbr
read_vbr_crash_iff kernel sb b_data log = elim (ℕ_discrete ((read_bpb b_data).bytes_per_sector) 0) [
  | yes zero_bytes ↦
      rw (read_vbr, read_sb_info_zero (read_bpb b_data) zero_bytes)
        ((λ crashed. inl zero_bytes), (λ cause. refl))
  | no ne ↦
      rw (read_vbr, read_sb_info-some (read_bpb b_data) ne)
        (
          (λ crashed. inr ((make_root_crash_iff kernel _ _).0 crashed)),
          (λ cause.
              (make_root_crash_iff kernel _ _).1
                (elim cause [ inl zero_bytes ↦ absurd (ne zero_bytes) | inr no_inode ↦ no_inode ])),
        )
]

-- For a mount that gets memory for its info, the block size and the first block: the kernel crashes in it
-- exactly if the boot sector has sectors of 0 bytes, where the code divides by them, or if the root inode
-- gets no memory, where the error pointer is taken for an inode.
pub penguin_fat16_fill_super_crash_iff :
    (kernel : Kernel) (sb : SuperBlock) (b_data : List ℕ)
    → kernel.kzalloc_info ≡ true
    → kernel.sb_set_blocksize ≡ true
    → kernel.sb_bread 0 ≡ some b_data
    → ((penguin_fat16_fill_super kernel sb).outcome ≡ crash) ↔ (
        ((read_bpb b_data).bytes_per_sector ≡ 0)
        ⊎ ((kernel.new_inode && kernel.kzalloc_inode) ≡ false))
unfolding penguin_fat16_fill_super
penguin_fat16_fill_super_crash_iff kernel sb b_data info size first =
    rw (penguin_fat16_fill_super, info, size, first)
      (read_vbr_crash_iff kernel (record sb { s_fs_info = some zeroed }) b_data
        (takes sb_info ∷ takes buffer ∷ []))
