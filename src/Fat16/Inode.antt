-- ===== src/Fat16/Inode.antt =====
-- Inodes of penguin-fat16/kmodule/inode.c, the lookup of a name, and `iterate_shared` of dir.c. Whether
-- the kernel has memory is an argument. `none` in place of an inode is -ENOMEM.
pub mod Named
pub mod Directory
mod Tests
use doomsday_kernel_modules.Base.{
  ℕ, ◌+◌, ◌-◌, ◌≡◌, Bool, true, false, Option, none, some, List, if◌then◌else◌, ◌&&◌, replicate, [],
  ◌∷◌, ◌++◌, length, ◌==◌,
}
use doomsday_kernel_modules.Fat16.Layout.{
  DirEntry, fat16_attr_directory, fat16_de_is_dir, fat16_de_is_skip, fat16_make_ino,
}
use doomsday_kernel_modules.Fat16.Cluster.{SbInfo, IoError, enomem}
use doomsday_kernel_modules.Fat16.Dir.{
  Walk, walked, stopped, failed_with, running, DirContext, Emitted, iterate_cb, entry_name,
  fat16_dir_walk,
}

-- An inode with its `fat16_inode_info_t`; the mode and the operations follow `is_dir`.
pub record Inode : Type 0 where
  pub start_cluster : ℕ
  pub file_size : ℕ
  pub i_ino : ℕ
  pub is_dir : Bool

unfoldable pub penguin_fat16_iget : Bool → Bool → ℕ → DirEntry → Option Inode
penguin_fat16_iget new_inode kzalloc ino de =
    if new_inode && kzalloc
    then some record {
      start_cluster = de.first_cluster_low;
      file_size = de.file_size;
      i_ino = ino;
      is_dir = fat16_de_is_dir de;
    }
    else none

unfoldable pub penguin_fat16_get_root_inode : Bool → Bool → Option Inode
unfolding penguin_fat16_iget
penguin_fat16_get_root_inode new_inode kzalloc = penguin_fat16_iget new_inode kzalloc 1 record {
  filename = replicate 11 0;
  attr = fat16_attr_directory;
  first_cluster_low = 0;
  file_size = 0;
}

-- What `d_splice_alias` answers for an inode: NULL where the dentry of the lookup gets it, another dentry that
-- has it, or an error.
pub data Spliced : Type 0 where
  attached : Spliced
  alias spliced_error : ℕ → Spliced

-- What a lookup does with its dentry: `d_splice_alias` with an inode, or `d_add` with NULL.
pub data DentryCall : Type 0 where
  splices : Inode → DentryCall
  adds_null : DentryCall

-- A pointer to a dentry.
pub data DentryPointer : Type 0 where
  null_dentry : DentryPointer
  other_dentry splice_error : ℕ → DentryPointer
  err_ptr : IoError → DentryPointer

-- The part of `struct lookup_cbdata` that changes, with the calls on the dentry so far.
pub record LookupCbdata : Type 0 where
  pub calls : List DentryCall
  pub result : DentryPointer

abbrev pub empty_cbdata : LookupCbdata
empty_cbdata = record { calls = []; result = null_dentry }

-- How a lookup ends; `endless` is a walk that is `running`.
pub data Lookup : Type 0 where
  returns : List DentryCall → DentryPointer → Lookup
  endless : Lookup

abbrev pub spliced_pointer : Spliced → DentryPointer
spliced_pointer attached = null_dentry
spliced_pointer (alias d) = other_dentry d
spliced_pointer (spliced_error e) = splice_error e

-- `IS_ERR(inode) ? ERR_CAST(inode) : d_splice_alias(inode, lc->dentry)`.
unfoldable pub splice_inode : (Inode → Spliced) → Option Inode → LookupCbdata → LookupCbdata
splice_inode d_splice_alias none lc = record lc { result = err_ptr enomem }
splice_inode d_splice_alias (some inode) lc = record {
  calls = lc.calls ++ splices inode ∷ [];
  result = spliced_pointer (d_splice_alias inode);
}

-- The calls of the kernel that a lookup makes are parameters.
module _ (same_letters : List ℕ → List ℕ → Bool) (d_splice_alias : Inode → Spliced)
    (new_inode kzalloc : Bool) where
  unfoldable pub lookup_cb :
      SbInfo → List ℕ → DirEntry → ℕ → ℕ → ℕ → LookupCbdata → ℕ × LookupCbdata
  unfolding entry_name splice_inode penguin_fat16_iget
  lookup_cb sbi name de entry_sector entry_idx abs_idx lc =
      let same = (length (entry_name de) == length name) && same_letters (entry_name de) name in
      let ino = fat16_make_ino sbi.bytes_per_sector entry_sector entry_idx in
      let inode = penguin_fat16_iget new_inode kzalloc ino de in
      if fat16_de_is_skip de
      then (0, lc)
      else (if same then (1, splice_inode d_splice_alias inode lc) else (0, lc))

  -- `if (cbdata.result) return cbdata.result; d_add(dentry, NULL); return NULL;`
  unfoldable pub lookup_result : LookupCbdata → Lookup
  lookup_result lc = elim lc.result [
    | null_dentry ↦ returns (lc.calls ++ adds_null ∷ []) null_dentry
    | other_dentry d ↦ returns lc.calls (other_dentry d)
    | splice_error e ↦ returns lc.calls (splice_error e)
    | err_ptr e ↦ returns lc.calls (err_ptr e)
  ]

  unfoldable pub penguin_fat16_lookup :
      (ℕ → Option (List ℕ)) → SbInfo → Bool → ℕ → Inode → List ℕ → Lookup
  unfolding lookup_result
  penguin_fat16_lookup sb_bread sbi allocated fuel dir name =
      elim (fat16_dir_walk (lookup_cb sbi name) sb_bread sbi allocated fuel dir.start_cluster
        empty_cbdata) [
          | walked lc ↦ lookup_result lc
          | stopped ret lc ↦ lookup_result lc
          | failed_with e lc ↦ returns lc.calls (err_ptr e)
          | running lc ↦ endless
        ]

-- The walk, with its end by a call as an ordinary end; `dots` is whether `dir_emit_dots` goes on, which
-- moves the position to 2 at least.
unfoldable pub penguin_fat16_iterate_shared :
    (List Emitted → Emitted → Bool)
    → (ℕ → Option (List ℕ))
    → SbInfo
    → Bool
    → ℕ
    → Bool
    → Inode
    → DirContext
    → Walk DirContext
penguin_fat16_iterate_shared dir_emit sb_bread sbi allocated fuel dots dir ctx =
    let result : Walk DirContext =
      elim (fat16_dir_walk (iterate_cb dir_emit sbi (ctx.pos - 2)) sb_bread sbi allocated fuel
        dir.start_cluster ctx) [
          | walked ctx' ↦ walked ctx'
          | stopped ret ctx' ↦ walked ctx'
          | failed_with e ctx' ↦ failed_with e ctx'
          | running ctx' ↦ running ctx'
        ] in
    if dots then result else walked ctx
