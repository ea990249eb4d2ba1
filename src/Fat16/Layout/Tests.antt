-- ===== src/Fat16/Layout/Tests.antt =====
-- The theorems on inode numbers at concrete entries.
use doomsday_kernel_modules.Base.{◌<◌, arith}
use doomsday_kernel_modules.Fat16.Layout.{fat16_entries_per_sector}

in_sector : 15 < fat16_entries_per_sector 512
unfolding fat16_entries_per_sector
in_sector = omega arith
