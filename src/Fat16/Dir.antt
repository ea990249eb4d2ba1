-- ===== src/Fat16/Dir.antt =====
-- penguin-fat16/kmodule/dir.c: the walk over the entries of a directory, with
-- the calls that it makes for each. `running` is a walk that has followed more clusters than the fuel.
pub mod Flat
pub mod Chain
pub mod Directory
pub mod Listing
mod Tests
use doomsday_kernel_modules.Base.{
  ℕ, zero, suc, ◌+◌, ◌*◌, ◌%◌, Bool, true, false, not, ◌&&◌, Option, none, some, List, [], ◌++◌,
  ◌∷◌, leb, ltb, ◌==◌, if◌then◌else◌, length, take, c_text,
}
use doomsday_kernel_modules.Fat16.Layout.{
  wrap32, DirEntry, fat16_final_cluster, entry_at, fat16_entries_per_sector,
  fat16_entries_per_cluster, fat16_root_sectors, fat16_cluster_sector, fat16_entry_sector,
  fat16_entry_idx, fat16_de_is_end, fat16_de_is_skip, fat16_de_is_dir, fat16_make_ino,
}
use doomsday_kernel_modules.Fat16.Name.{fat16_83_to_str, or_empty}
use doomsday_kernel_modules.Fat16.Cluster.{
  SbInfo, IoError, eio, enomem, fault, Io, ok, failed, fat16_next_cluster, fat16_read_cluster,
}

-- How a walk ends, with what the calls have gathered.
pub data Walk (S : Type 0) : Type 0 where
  -- at the end marker, or after the last entry
  walked : S → Walk S
  -- by a call that returned something else than 0
  stopped : ℕ → S → Walk S
  failed_with : IoError → S → Walk S
  running : S → Walk S

-- How the entries of a block end.
pub data Scan (S : Type 0) : Type 0 where
  more at_end : S → Scan S
  stop : ℕ → S → Scan S
  past : S → Scan S

-- `cb` takes an entry, its sector, its index in the sector and its number in the directory.
module _ {S : Type 0} (cb : DirEntry → ℕ → ℕ → ℕ → S → ℕ × S) where
  -- The loop over the entries of a block; `place` gives the sector and the index of an entry.
  unfoldable pub scan : (ℕ → ℕ × ℕ) → List ℕ → ℕ → ℕ → ℕ → S → Scan S
  scan place block zero i abs_idx s = more s
  scan place block (suc left) i abs_idx s = elim (entry_at block i) [
    | none ↦ past s
    | some de ↦
        let (sector, index) = place i in
        let (ret, s') = cb de sector index abs_idx s in
        let rest = scan place block left (i + 1) (wrap32 (abs_idx + 1)) s' in
        if fat16_de_is_end de then at_end s else (if ret == 0 then rest else stop ret s')
  ]

  module _ (sb_bread : ℕ → Option (List ℕ)) where
    -- The loop over the sectors of the root directory, from number `n` on.
    unfoldable pub walk_root : SbInfo → ℕ → ℕ → ℕ → S → Walk S
    unfolding scan
    walk_root sbi zero n abs_idx s = walked s
    walk_root sbi (suc left) n abs_idx s =
        let sector = wrap32 (sbi.root_dir_start + n) in
        let eps = fat16_entries_per_sector sbi.bytes_per_sector in
        elim (sb_bread sector) [
          | none ↦ failed_with eio s
          | some block ↦ elim (scan (λ i. (sector, i)) block eps 0 abs_idx s) [
            | more s' ↦ walk_root sbi left (n + 1) (wrap32 (abs_idx + eps)) s'
            | at_end s' ↦ walked s'
            | stop ret s' ↦ stopped ret s'
            | past s' ↦ failed_with fault s'
          ]
        ]

    -- The loop over the clusters of another directory.
    unfoldable pub walk_chain : SbInfo → ℕ → ℕ → ℕ → S → Walk S
    unfolding scan
    walk_chain sbi zero cluster abs_idx s =
        if leb fat16_final_cluster cluster then walked s else running s
    walk_chain sbi (suc fuel) cluster abs_idx s =
        let eps = fat16_entries_per_sector sbi.bytes_per_sector in
        let epc = fat16_entries_per_cluster sbi.bytes_per_cluster in
        let cs = fat16_cluster_sector sbi.data_start cluster sbi.sectors_per_cluster in
        let place : ℕ → ℕ × ℕ = λ i. (fat16_entry_sector cs i eps, fat16_entry_idx i eps) in
        let next : Walk S = elim (fat16_read_cluster sb_bread sbi cluster) [
          | failed e ↦ failed_with (elim e [ fault ↦ fault | _ ↦ eio ]) s
          | ok block ↦ elim (scan place block epc 0 abs_idx s) [
            | more s' ↦ elim (fat16_next_cluster sb_bread sbi cluster) [
              | failed e ↦ failed_with (elim e [ fault ↦ fault | _ ↦ eio ]) s'
              | ok cluster' ↦ walk_chain sbi fuel cluster' (wrap32 (abs_idx + epc)) s'
            ]
            | at_end s' ↦ walked s'
            | stop ret s' ↦ stopped ret s'
            | past s' ↦ failed_with fault s'
          ]
        ] in
        if leb fat16_final_cluster cluster then walked s else next

    -- `allocated` is whether `kmalloc` gives a buffer.
    unfoldable pub fat16_dir_walk : SbInfo → Bool → ℕ → ℕ → S → Walk S
    unfolding walk_root walk_chain
    fat16_dir_walk sbi allocated fuel start_cluster s =
        let root : Walk S = elim (fat16_root_sectors sbi.root_dir_entries sbi.bytes_per_sector) [
          | none ↦ failed_with fault s
          | some sectors ↦ walk_root sbi sectors 0 0 s
        ] in
        if start_cluster == 0
        then root
        else (if allocated
            then walk_chain sbi fuel (start_cluster % 65536) 0 s
            else failed_with enomem s)

-- What `dir_emit` gets: a name, an inode number, and whether the entry is a directory.
pub record Emitted : Type 0 where
  pub name : List ℕ
  pub ino : ℕ
  pub is_dir : Bool

-- `struct dir_context`, with what it has taken so far.
pub record DirContext : Type 0 where
  pub pos : ℕ
  pub taken : List Emitted

-- The name of an entry as a text.
unfoldable pub entry_name : DirEntry → List ℕ
entry_name de = c_text (or_empty (fat16_83_to_str de.filename 13))

-- `dir_emit` takes the entry or refuses it.
unfoldable pub iterate_cb :
    (List Emitted → Emitted → Bool)
    → SbInfo
    → ℕ
    → DirEntry
    → ℕ
    → ℕ
    → ℕ
    → DirContext
    → ℕ × DirContext
unfolding entry_name
iterate_cb dir_emit sbi start_idx de entry_sector entry_idx abs_idx ctx =
    let entry : Emitted = record {
      name = entry_name de;
      ino = fat16_make_ino sbi.bytes_per_sector entry_sector entry_idx;
      is_dir = fat16_de_is_dir de;
    } in
    if ltb abs_idx start_idx
    then (0, ctx)
    else (if fat16_de_is_skip de
        then (0, record ctx { pos = ctx.pos + 1 })
        else (if dir_emit ctx.taken entry
            then (0, record { pos = ctx.pos + 1; taken = ctx.taken ++ (entry ∷ []) })
            else (1, ctx)))
