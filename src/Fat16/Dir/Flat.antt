-- ===== src/Fat16/Dir/Flat.antt =====
-- The walk over the root directory, against the flat list of its entries.
use native.Mathlib.Nat.{add-mul}
use doomsday_kernel_modules.Base.{
  ℕ, zero, suc, ◌+◌, ◌*◌, ◌^◌, ◌≡◌, ◌≤◌, ◌<◌, refl, ap, sym, ◌∙◌, Bool, true, false, Option, some,
  List, [], ◌∷◌, ◌++◌, ◌==◌, if◌then◌else◌, length, get_or, take, drop, arith,
}
use doomsday_kernel_modules.Fat16.Layout.{
  wrap32, DirEntry, le16, le32, entry_at, fat16_entries_per_sector, fat16_root_sectors,
  fat16_de_is_end,
}
use doomsday_kernel_modules.Fat16.Cluster.{SbInfo, fault}
use doomsday_kernel_modules.Fat16.Dir.{
  Walk, walked, stopped, failed_with, Scan, more, at_end, stop, past, scan, walk_root,
  fat16_dir_walk,
}

-- An entry with its sector, its index in the sector and its number in the directory.
pub record Located : Type 0 where
  pub de : DirEntry
  pub sector : ℕ
  pub index : ℕ
  pub number : ℕ

-- The 32 bytes of entry `i` of a block that has them.
abbrev pub entry_of : List ℕ → ℕ → DirEntry
unfolding le16 le32
entry_of block i = record {
  filename = take 11 (drop (32 * i) block);
  attr = get_or block (32 * i + 11) 0;
  first_cluster_low = le16 block (32 * i + 26);
  file_size = le32 block (32 * i + 28);
}

-- The entries of a block from number `i` on, behind `before` entries in all; `place` gives the sector and
-- the index of an entry.
abbrev pub block_entries : (left i : ℕ) → List ℕ → (ℕ → ℕ × ℕ) → (before : ℕ) → List Located
block_entries zero i block place before = []
block_entries (suc left) i block place before =
    record { de = entry_of block i; sector = (place i).0; index = (place i).1; number = before }
    ∷ block_entries left (i + 1) block place (before + 1)

-- The entries of the sectors of the root directory from number `n` on.
abbrev pub root_entries : (left n : ℕ) → (ℕ → List ℕ) → SbInfo → List Located
root_entries zero n blocks sbi = []
root_entries (suc left) n blocks sbi =
    block_entries (fat16_entries_per_sector sbi.bytes_per_sector) 0 (blocks n)
      (λ j. (wrap32 (sbi.root_dir_start + n), j))
      (n * fat16_entries_per_sector sbi.bytes_per_sector)
    ++ root_entries left (n + 1) blocks sbi

module _ {S : Type 0} (cb : DirEntry → ℕ → ℕ → ℕ → S → ℕ × S) where
  -- The calls for the entries in order, up to the end marker or to a call that returns something else
  -- than 0.
  abbrev pub visit : List Located → S → Walk S
  visit [] s = walked s
  visit (e ∷ es) s =
      let (ret, s') = cb e.de e.sector e.index e.number s in
      let rest = visit es s' in
      if fat16_de_is_end e.de then walked s else (if ret == 0 then rest else stopped ret s')

  abbrev pub after_scan : List Located → Scan S → Walk S
  after_scan es (more s) = visit es s
  after_scan es (at_end s) = walked s
  after_scan es (stop ret s) = stopped ret s
  after_scan es (past s) = failed_with fault s

  entry_at-some :
      (block : List ℕ) (i : ℕ)
      → 32 * i + 32 ≤ length block
      → entry_at block i ≡ some (entry_of block i)
  unfolding entry_at le16 le32
  entry_at-some block i inside = ground arith

  after_scan-if :
      (es : List Located) (ended on : Bool) (s s' : S) (ret : ℕ) (rest : Scan S) (rest' : Walk S)
      → after_scan es rest ≡ rest'
      → after_scan es (if ended then at_end s else (if on then rest else stop ret s'))
        ≡ (if ended then walked s else (if on then rest' else stopped ret s'))
  after_scan-if es true on s s' ret rest rest' same = refl
  after_scan-if es false true s s' ret rest rest' same = same
  after_scan-if es false false s s' ret rest rest' same = refl

  -- A scan of a block, then the visit of other entries.
  pub scan-visit :
      (left i : ℕ) (block : List ℕ) (place : ℕ → ℕ × ℕ) (before : ℕ) (es : List Located) (s : S)
      → 32 * (i + left) ≤ length block
      → before + left < 2 ^ 32
      → after_scan es (scan cb place block left i before s)
        ≡ visit (block_entries left i block place before ++ es) s
  unfolding scan
  scan-visit zero i block place before es s inside small = refl
  scan-visit (suc left) i block place before es s inside small =
      let next : wrap32 (before + 1) ≡ before + 1 = omega arith in
      let (ret, s') = cb (entry_of block i) (place i).0 (place i).1 before s in
      rw (scan, entry_at-some block i (omega arith), next)
        (after_scan-if es (fat16_de_is_end (entry_of block i)) (ret == 0) s s' ret
          (scan cb place block left (i + 1) (before + 1) s')
          (visit (block_entries left (i + 1) block place (before + 1) ++ es) s')
          (scan-visit left (i + 1) block place (before + 1) es s' (omega arith) (omega arith)))

  pub resume :
      (es : List Located) (r : Scan S) (f : S → Walk S)
      → ((s : S) → f s ≡ visit es s)
      → (◌≡◌ {A = Walk S}
          (elim r [
            | more s ↦ f s
            | at_end s ↦ walked s
            | stop ret s ↦ stopped ret s
            | past s ↦ failed_with fault s
          ])
          (after_scan es r))
  resume es (more s) f same = same s
  resume es (at_end s) f same = refl
  resume es (stop ret s) f same = refl
  resume es (past s) f same = refl

  module _ (sb_bread : ℕ → Option (List ℕ)) (sbi : SbInfo) (blocks : ℕ → List ℕ) (total : ℕ)
      (readable : (n : ℕ)
        → n < total
        → sb_bread (wrap32 (sbi.root_dir_start + n)) ≡ some (blocks n))
      (whole : (n : ℕ)
        → n < total
        → 32 * fat16_entries_per_sector sbi.bytes_per_sector ≤ length (blocks n))
      (small : total * fat16_entries_per_sector sbi.bytes_per_sector < 2 ^ 32) where
    walk_root-visit :
        (left n : ℕ) (s : S)
        → n + left ≡ total
        → walk_root cb sb_bread sbi left n (n * fat16_entries_per_sector sbi.bytes_per_sector) s
          ≡ visit (root_entries left n blocks sbi) s
    unfolding walk_root
    walk_root-visit zero n s sum = refl
    walk_root-visit (suc left) n s sum =
        let eps = fat16_entries_per_sector sbi.bytes_per_sector in
        let sector = wrap32 (sbi.root_dir_start + n) in
        let below : n < total = omega arith in
        let product : total * eps ≡ n * eps + suc left * eps =
          sym (ap (λ k. k * eps) sum) ∙ add-mul n (suc left) eps in
        let next : wrap32 (n * eps + eps) ≡ (n + 1) * eps = omega arith in
        let whole_block = whole n below in
        rw (walk_root, readable n below)
          (resume (root_entries left (n + 1) blocks sbi)
              (scan cb (λ j. (sector, j)) (blocks n) eps 0 (n * eps) s)
              (λ s'. walk_root cb sb_bread sbi left (n + 1) (wrap32 (n * eps + eps)) s')
              (λ s'.
                ap (λ k. walk_root cb sb_bread sbi left (n + 1) k s') next
                ∙ walk_root-visit left (n + 1) s' (omega arith))
            ∙ scan-visit eps 0 (blocks n) (λ j. (sector, j)) (n * eps)
                (root_entries left (n + 1) blocks sbi) s (omega arith) (omega arith))

    -- The walk over the root directory, when its sectors can be read and consist of whole entries, of which
    -- there are fewer than 2^32, makes the calls for its entries in order.
    pub fat16_dir_walk-visit :
        (allocated : Bool) (fuel : ℕ) (s : S)
        → fat16_root_sectors sbi.root_dir_entries sbi.bytes_per_sector ≡ some total
        → fat16_dir_walk cb sb_bread sbi allocated fuel 0 s
          ≡ visit (root_entries total 0 blocks sbi) s
    unfolding fat16_dir_walk
    fat16_dir_walk-visit allocated fuel s sectors =
        let zero_before : 0 ≡ 0 * fat16_entries_per_sector sbi.bytes_per_sector = omega arith in
        rw (fat16_dir_walk, sectors)
          (ap (λ k. walk_root cb sb_bread sbi total 0 k s) zero_before
            ∙ walk_root-visit total 0 s (omega arith))
