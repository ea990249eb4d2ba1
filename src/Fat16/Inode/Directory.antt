-- ===== src/Fat16/Inode/Directory.antt =====
-- A lookup in a directory, and its listing.
use doomsday_kernel_modules.Base.{ℕ, ◌-◌, ◌≡◌, refl, ◌∙◌, Bool, true, Option, List, [], arith}
use doomsday_kernel_modules.Fat16.Cluster.{SbInfo}
use doomsday_kernel_modules.Fat16.Dir.{
  Walk, walked, stopped, failed_with, running, DirContext, Emitted, iterate_cb,
}
use doomsday_kernel_modules.Fat16.Dir.Flat.{Located, visit}
use doomsday_kernel_modules.Fat16.Dir.Directory.{
  IsDirectory, fat16_dir_walk-IsDirectory, IsDirectory-Numbered,
}
use doomsday_kernel_modules.Fat16.Inode.Named.{
  first_named, looked_up, found_walk-looked_up, visit-first_named,
}
use doomsday_kernel_modules.Fat16.Dir.Listing.{listed, Takes, take_all, Resumed, visit-Resumed}
use doomsday_kernel_modules.Fat16.Inode.{
  Inode, Spliced, empty_cbdata, lookup_cb, penguin_fat16_lookup, penguin_fat16_iterate_shared,
}

-- How `iterate_shared` ends, by how the walk ends.
abbrev ended_walk : Walk DirContext → Walk DirContext
ended_walk (walked ctx) = walked ctx
ended_walk (stopped ret ctx) = walked ctx
ended_walk (failed_with e ctx) = failed_with e ctx
ended_walk (running ctx) = running ctx

Takes-ended_walk :
    (all : List Emitted) (w : Walk DirContext) → Takes all w → Takes all (ended_walk w)
Takes-ended_walk all (walked ctx) takes = takes
Takes-ended_walk all (stopped ret ctx) takes = elim takes [ ]
Takes-ended_walk all (failed_with e ctx) takes = elim takes [ ]
Takes-ended_walk all (running ctx) takes = elim takes [ ]

-- A listing that ends, after which another call on its context gives `all`.
abbrev pub Continues :
    (ℕ → Option (List ℕ)) → SbInfo → Inode → Bool → ℕ → List Emitted → Walk DirContext → Type 0
Continues sb_bread sbi dir allocated fuel all (walked ctx) =
    Takes all (penguin_fat16_iterate_shared take_all sb_bread sbi allocated fuel true dir ctx)
Continues sb_bread sbi dir allocated fuel all (stopped ret ctx) = ⊥
Continues sb_bread sbi dir allocated fuel all (failed_with e ctx) = ⊥
Continues sb_bread sbi dir allocated fuel all (running ctx) = ⊥

-- A directory that can be read.
module _ (sb_bread : ℕ → Option (List ℕ)) (sbi : SbInfo) (allocated : Bool) (fuel : ℕ) (dir : Inode)
    (es : List Located)
    (is_directory : IsDirectory sb_bread sbi allocated fuel dir.start_cluster es) where
  -- In a directory that can be read, in the root directory's sectors or in a chain of clusters: a lookup makes
  -- the inode of the first entry before the end marker that is not skipped and has the name, and splices it.
  -- It returns the other dentry or the error that it gets for it, and NULL where the dentry got the inode, but
  -- then it has added the dentry with NULL as well. Where no entry has the name it only adds the dentry with
  -- NULL; where the inode gets no memory it returns that error.
  pub penguin_fat16_lookup-first_named :
      (same_letters : List ℕ → List ℕ → Bool) (d_splice_alias : Inode → Spliced)
      (new_inode kzalloc : Bool) (name : List ℕ)
      → penguin_fat16_lookup same_letters d_splice_alias new_inode kzalloc sb_bread sbi allocated
          fuel dir name
        ≡ looked_up new_inode kzalloc d_splice_alias (first_named same_letters sbi name es)
  unfolding penguin_fat16_lookup
  penguin_fat16_lookup-first_named same_letters d_splice_alias new_inode kzalloc name =
      let walk =
        fat16_dir_walk-IsDirectory
          (lookup_cb same_letters d_splice_alias new_inode kzalloc sbi name) sb_bread sbi allocated
          fuel dir.start_cluster es empty_cbdata is_directory
        ∙ visit-first_named same_letters d_splice_alias new_inode kzalloc sbi name es in
      rw (penguin_fat16_lookup, walk)
        (found_walk-looked_up same_letters d_splice_alias new_inode kzalloc
          (first_named same_letters sbi name es))

  iterate_walk :
      (dir_emit : List Emitted → Emitted → Bool) (ctx : DirContext)
      → penguin_fat16_iterate_shared dir_emit sb_bread sbi allocated fuel true dir ctx
        ≡ ended_walk (visit (iterate_cb dir_emit sbi (ctx.pos - 2)) es ctx)
  unfolding penguin_fat16_iterate_shared
  iterate_walk dir_emit ctx =
      let walk =
        fat16_dir_walk-IsDirectory (iterate_cb dir_emit sbi (ctx.pos - 2)) sb_bread sbi allocated
          fuel dir.start_cluster es ctx is_directory in
      rw (penguin_fat16_iterate_shared, walk) refl

  go_on :
      (low : ℕ) (all : List Emitted) (w : Walk DirContext)
      → Resumed sbi es low all w
      → Continues sb_bread sbi dir allocated fuel all (ended_walk w)
  go_on low all (walked ctx) (behind, takes) =
      rw (iterate_walk take_all ctx) (Takes-ended_walk all _ takes)
  go_on low all (stopped ret ctx) (behind, takes) =
      rw (iterate_walk take_all ctx) (Takes-ended_walk all _ takes)
  go_on low all (failed_with _ _) resumed = elim resumed [ ]
  go_on low all (running _) resumed = elim resumed [ ]

  -- In a directory that can be read, in the root directory's sectors or in a chain of clusters: however a
  -- listing from the start ends, whatever entry the kernel refuses, it leaves a position from which a second
  -- listing with a kernel that takes all gives the rest, so that the two together give each entry before the
  -- end marker that is not skipped once, in order.
  pub penguin_fat16_iterate_shared-Continues :
      (dir_emit : List Emitted → Emitted → Bool)
      → Continues sb_bread sbi dir allocated fuel (listed sbi es) (
          penguin_fat16_iterate_shared dir_emit sb_bread sbi allocated fuel true dir
            (record { pos = 2; taken = [] }))
  penguin_fat16_iterate_shared-Continues dir_emit =
      let start : DirContext = record { pos = 2; taken = [] } in
      rw (iterate_walk dir_emit start) (
        go_on 2 (listed sbi es) (visit (iterate_cb dir_emit sbi 0) es start) (
          visit-Resumed sbi dir_emit es 0 0 start (IsDirectory-Numbered es is_directory)
            (omega arith) refl))
