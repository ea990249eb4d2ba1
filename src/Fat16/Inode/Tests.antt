-- ===== src/Fat16/Inode/Tests.antt =====
-- The inode of the root directory, a root directory of one sector with a deleted entry and `A`, and a
-- directory in two clusters.
use doomsday_kernel_modules.Base.{
  ℕ, zero, suc, ◌+◌, ◌*◌, ◌^◌, ◌≤◌, ◌<◌, ◌≡◌, refl, Bool, true, false, Option, none, some, List, [],
  ◌∷◌, ◌++◌, ◌==◌, if◌then◌else◌, replicate, length, arith,
}
use doomsday_kernel_modules.Fat16.Layout.{
  wrap32, fat16_de_is_dir, fat16_root_sectors, fat16_entries_per_sector, fat16_entries_per_cluster,
  le16, fat16_cluster_sector,
}
use doomsday_kernel_modules.Fat16.Cluster.{SbInfo, fat16_read_cluster, fat16_next_cluster}
use doomsday_kernel_modules.Fat16.Cluster.Chain.{ClusterChain, end, link}
use doomsday_kernel_modules.Fat16.Dir.{Emitted}
use doomsday_kernel_modules.Fat16.Dir.Flat.{root_entries}
use doomsday_kernel_modules.Fat16.Dir.Chain.{chain_entries}
use doomsday_kernel_modules.Fat16.Dir.Directory.{IsDirectory, in_root, in_clusters}
use doomsday_kernel_modules.Fat16.Inode.Named.{first_named, looked_up}
use doomsday_kernel_modules.Fat16.Dir.Listing.{listed}
use doomsday_kernel_modules.Fat16.Inode.{
  Inode, Spliced, attached, penguin_fat16_get_root_inode, penguin_fat16_lookup,
  penguin_fat16_iterate_shared,
}
use doomsday_kernel_modules.Fat16.Inode.Directory.{
  penguin_fat16_lookup-first_named, Continues, penguin_fat16_iterate_shared-Continues,
}

-- The root directory has inode 1 and no cluster.
root_test :
    penguin_fat16_get_root_inode true true
    ≡ some record { start_cluster = 0; file_size = 0; i_ino = 1; is_dir = true }
unfolding penguin_fat16_get_root_inode fat16_de_is_dir
root_test = refl

abbrev volume : SbInfo
volume = record {
  fat_start = 1;
  root_dir_start = 3;
  data_start = 4;
  sectors_per_cluster = 1;
  bytes_per_cluster = 64;
  root_dir_entries = 2;
  bytes_per_sector = 64;
  fat_count = 1;
}

abbrev sector : List ℕ
sector = (229 ∷ replicate 31 0) ++ ((b'A' ∷ replicate 10 b' ') ++ replicate 21 0)

abbrev device : ℕ → Option (List ℕ)
device n = if n == 3 then some sector else none

abbrev blocks : ℕ → List ℕ
blocks n = sector

abbrev root : Inode
root = record { start_cluster = 0; file_size = 0; i_ino = 1; is_dir = true }

one_sector : fat16_root_sectors 2 64 ≡ some 1
unfolding fat16_root_sectors
one_sector = refl

readable : (n : ℕ) → n < 1 → device (wrap32 (3 + n)) ≡ some (blocks n)
readable zero below = refl
readable (suc n) below = absurd (omega arith)

whole : (n : ℕ) → n < 1 → 32 * fat16_entries_per_sector 64 ≤ length (blocks n)
unfolding fat16_entries_per_sector
whole n below = omega arith

small : 1 * fat16_entries_per_sector 64 < 2 ^ 32
unfolding fat16_entries_per_sector
small = omega arith

abbrev any_letters : List ℕ → List ℕ → Bool
any_letters a b = true

root_IsDirectory : IsDirectory device volume true 0 0 (root_entries 1 0 blocks volume)
root_IsDirectory = in_root blocks 1 refl one_sector readable whole small refl

abbrev attaches : Inode → Spliced
attaches inode = attached

lookup_example :
    penguin_fat16_lookup any_letters attaches true true device volume true 0 root (b'A' ∷ [])
    ≡ looked_up true true attaches
        (first_named any_letters volume (b'A' ∷ []) (root_entries 1 0 blocks volume))
lookup_example =
    penguin_fat16_lookup-first_named device volume true 0 root (root_entries 1 0 blocks volume)
      root_IsDirectory any_letters attaches true true (b'A' ∷ [])

-- A directory in the clusters 2 and 3: a deleted entry and `A`, then `B` and the end marker.
abbrev table : List ℕ
table = (0 ∷ 0 ∷ 0 ∷ 0 ∷ 3 ∷ 0 ∷ 255 ∷ 255 ∷ []) ++ replicate 56 0

abbrev second : List ℕ
second = (b'B' ∷ replicate 10 b' ') ++ replicate 53 0

abbrev disk : ℕ → Option (List ℕ)
disk n =
    if n == 1
    then some table
    else (if n == 4 then some sector else (if n == 5 then some second else none))

abbrev clusters : List (ℕ × List ℕ)
clusters = (2, sector) ∷ (3, second) ∷ []

linked : ClusterChain disk volume 2 clusters
unfolding fat16_read_cluster fat16_next_cluster le16 fat16_cluster_sector
linked = link (omega arith) refl refl (link (omega arith) refl refl (end (omega arith)))

abbrev sub : Inode
sub = record { start_cluster = 2; file_size = 0; i_ino = 192; is_dir = true }

small_chain : 2 * fat16_entries_per_cluster 64 < 2 ^ 32
unfolding fat16_entries_per_cluster
small_chain = omega arith

sub_IsDirectory : IsDirectory disk volume true 2 2 (chain_entries volume clusters 0)
sub_IsDirectory =
    in_clusters clusters (omega arith) (omega arith) refl refl linked (omega arith) small_chain refl

abbrev refuse : List Emitted → Emitted → Bool
refuse taken entry = false

listing_example :
    Continues disk volume sub true 2 (listed volume (chain_entries volume clusters 0)) (
      penguin_fat16_iterate_shared refuse disk volume true 2 true sub
        (record { pos = 2; taken = [] }))
listing_example =
    penguin_fat16_iterate_shared-Continues disk volume true 2 sub (chain_entries volume clusters 0)
      sub_IsDirectory refuse
