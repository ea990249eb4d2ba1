-- ===== src/Fat16/Super/Tests.antt =====
-- Mounting at concrete answers of the kernel.
use doomsday_kernel_modules.Base.{
  ℕ, ◌≡◌, refl, Bool, true, false, ◌&&◌, none, some, List, ◌∷◌, ◌++◌, replicate, ◌⊎◌, ◌↔◌,
}
use doomsday_kernel_modules.Fat16.Super.{
  SuperBlock, Kernel, crash, read_bpb, penguin_fat16_fill_super,
}
use doomsday_kernel_modules.Fat16.Super.Mount.{
  IsBalanced, penguin_fat16_fill_super-IsBalanced, penguin_fat16_fill_super_crash_iff,
}

-- A volume of zeros.
abbrev zeros : List ℕ
zeros = replicate 512 0

-- A volume with sectors of 512 bytes.
abbrev volume : List ℕ
volume = replicate 12 0 ++ 2 ∷ replicate 499 0

abbrev kernel : List ℕ → Bool → Kernel
kernel first d_make_root = record {
  kzalloc_info = true;
  sb_set_blocksize = true;
  sb_bread = λ block. some first;
  ilog2 = λ n. 9;
  new_inode = true;
  kzalloc_inode = true;
  d_make_root = d_make_root;
}

abbrev unmounted : SuperBlock
unmounted = record {
  s_fs_info = none;
  s_rdonly = false;
  s_blocksize = 1024;
  s_blocksize_bits = 10;
  s_root = none;
}

mount_example : IsBalanced (penguin_fat16_fill_super (kernel volume true) unmounted)
mount_example = penguin_fat16_fill_super-IsBalanced (kernel volume true) unmounted refl

crash_example :
    ((penguin_fat16_fill_super (kernel zeros true) unmounted).outcome ≡ crash)
    ↔ (((read_bpb zeros).bytes_per_sector ≡ 0) ⊎ ((true && true) ≡ false))
crash_example =
    penguin_fat16_fill_super_crash_iff (kernel zeros true) unmounted zeros refl refl refl
