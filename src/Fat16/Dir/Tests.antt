-- ===== src/Fat16/Dir/Tests.antt =====
-- A lookup in a root directory of one sector.
use doomsday_kernel_modules.Base.{
  ℕ, ◌≡◌, refl, true, false, Option, none, some, List, [], ◌∷◌, ◌++◌, ◌==◌, if◌then◌else◌,
  replicate, c_text,
}
use doomsday_kernel_modules.Fat16.Layout.{
  fat16_root_sectors, fat16_entries_per_sector, entry_at, fat16_de_is_end, fat16_de_is_skip,
  fat16_make_ino, fat16_de_is_dir,
}
use doomsday_kernel_modules.Fat16.Name.{or_empty, fat16_83_to_str}
use doomsday_kernel_modules.Fat16.Cluster.{SbInfo}
use doomsday_kernel_modules.Fat16.Dir.{walked, iterate_cb, fat16_dir_walk}

abbrev volume : SbInfo
volume = record {
  fat_start = 1;
  root_dir_start = 3;
  data_start = 4;
  sectors_per_cluster = 1;
  bytes_per_cluster = 64;
  root_dir_entries = 2;
  bytes_per_sector = 64;
  fat_count = 1;
}

-- One entry, `A`, and the end marker.
abbrev sector : List ℕ
sector = (b'A' ∷ replicate 10 b' ') ++ replicate 53 0

abbrev device : ℕ → Option (List ℕ)
device n = if n == 3 then some sector else none

walk_test :
    fat16_dir_walk
      (iterate_cb (λ seen entry. true) volume 0)
      device
      volume
      true
      0
      0
      record { pos = 2; taken = [] }
    ≡ walked record { pos = 3; taken = record { name = b'A' ∷ []; ino = 192; is_dir = false } ∷ [] }
unfolding fat16_dir_walk iterate_cb fat16_root_sectors fat16_entries_per_sector entry_at
    fat16_de_is_end fat16_de_is_skip c_text fat16_make_ino fat16_de_is_dir or_empty fat16_83_to_str
walk_test = refl
