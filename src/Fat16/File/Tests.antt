-- ===== src/Fat16/File/Tests.antt =====
-- Reads of files of one and of two clusters.
use doomsday_kernel_modules.Base.{
  ℕ, ◌+◌, take, length, ◌≡◌, refl, true, Option, some, List, [], ◌∷◌, ◌++◌, ◌==◌, if◌then◌else◌,
  replicate, arith,
}
use doomsday_kernel_modules.Fat16.Cluster.{SbInfo, fat16_read_cluster, fat16_next_cluster}
use doomsday_kernel_modules.Fat16.Layout.{le16, fat16_cluster_sector}
use doomsday_kernel_modules.Fat16.File.{copied, penguin_fat16_read_iter}
use doomsday_kernel_modules.Fat16.Cluster.Chain.{ClusterChain, end, link, content}
use doomsday_kernel_modules.Fat16.File.Whole.{penguin_fat16_read_iter-content}

abbrev volume : SbInfo
volume = record {
  fat_start = 1;
  root_dir_start = 3;
  data_start = 4;
  sectors_per_cluster = 1;
  bytes_per_cluster = 64;
  root_dir_entries = 2;
  bytes_per_sector = 64;
  fat_count = 1;
}

-- Cluster 2 has the text, and is the last of its file.
abbrev device : ℕ → Option (List ℕ)
device n =
    if n == 4
    then some ((b'a' ∷ b'b' ∷ b'c' ∷ b'd' ∷ []) ++ replicate 60 0)
    else some (replicate 64 255)

-- A file in the clusters 2 and 3, of 70 bytes.
abbrev table : List ℕ
table = (0 ∷ 0 ∷ 0 ∷ 0 ∷ 3 ∷ 0 ∷ 255 ∷ 255 ∷ []) ++ replicate 56 0

abbrev first : List ℕ
first = (b'a' ∷ b'b' ∷ b'c' ∷ b'd' ∷ []) ++ replicate 60 0

abbrev second : List ℕ
second = replicate 6 b'e' ++ replicate 58 0

abbrev disk : ℕ → Option (List ℕ)
disk n = if n == 1 then some table else (if n == 4 then some first else some second)

abbrev clusters : List (ℕ × List ℕ)
clusters = (2, first) ∷ (3, second) ∷ []

linked : ClusterChain disk volume 2 clusters
unfolding fat16_read_cluster fat16_next_cluster le16 fat16_cluster_sector
linked = link (omega arith) refl refl (link (omega arith) refl refl (end (omega arith)))

penguin_fat16_read_iter-content_example :
    penguin_fat16_read_iter disk (λ n. n) volume true 2 2 70 3 100
    ≡ (copied (take 67 (content clusters)), 3 + length (take 67 (content clusters)))
penguin_fat16_read_iter-content_example =
    penguin_fat16_read_iter-content disk (λ n. n) (λ n. refl) volume refl 2 2 70 3 100 clusters
      linked (omega arith) (omega arith) (omega arith) (omega arith)

read_test :
    (penguin_fat16_read_iter device (λ n. n) volume true 5 2 4 2 2).0 ≡ copied (b'a' ∷ b'b' ∷ [])
unfolding penguin_fat16_read_iter fat16_read_cluster fat16_cluster_sector fat16_next_cluster
read_test = refl
