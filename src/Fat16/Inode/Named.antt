-- ===== src/Fat16/Inode/Named.antt =====
-- A lookup, against the first entry of a directory with the name.
use doomsday_kernel_modules.Base.{
  ℕ, ◌≡◌, refl, Bool, true, false, not, ◌&&◌, Option, none, some, List, [], ◌∷◌, ◌==◌,
  if◌then◌else◌, length,
}
use doomsday_kernel_modules.Fat16.Layout.{
  DirEntry, fat16_de_is_end, fat16_de_is_skip, fat16_make_ino,
}
use doomsday_kernel_modules.Fat16.Cluster.{SbInfo, enomem}
use doomsday_kernel_modules.Fat16.Dir.{Walk, walked, stopped, failed_with, running, entry_name}
use doomsday_kernel_modules.Fat16.Inode.{
  Inode, Spliced, attached, alias, spliced_error, splices, adds_null, null_dentry, other_dentry,
  splice_error, err_ptr, LookupCbdata, empty_cbdata, spliced_pointer, Lookup, returns, endless,
  splice_inode, penguin_fat16_iget, lookup_cb, lookup_result,
}
use doomsday_kernel_modules.Fat16.Dir.Flat.{Located, visit}

-- The first entry before the end marker that is not skipped and has the name, with its inode number.
abbrev pub first_named :
    (List ℕ → List ℕ → Bool) → SbInfo → List ℕ → List Located → Option (ℕ × DirEntry)
first_named same_letters sbi name [] = none
first_named same_letters sbi name (e ∷ es) =
    let rest = first_named same_letters sbi name es in
    let same = (length (entry_name e.de) == length name) && same_letters (entry_name e.de) name in
    if fat16_de_is_end e.de
    then none
    else (if not (fat16_de_is_skip e.de) && same
        then some (fat16_make_ino sbi.bytes_per_sector e.sector e.index, e.de)
        else rest)

-- What a lookup is to do with its dentry: with an inode, by what the kernel makes of it; with the inode of the
-- entry that has the name, if there is memory for it; and without an entry. A dentry that got the inode is added
-- once more.
abbrev pub with_inode : Inode → Spliced → Lookup
with_inode inode attached = returns (splices inode ∷ adds_null ∷ []) null_dentry
with_inode inode (alias d) = returns (splices inode ∷ []) (other_dentry d)
with_inode inode (spliced_error e) = returns (splices inode ∷ []) (splice_error e)

abbrev pub with_memory : (Inode → Spliced) → Option Inode → Lookup
with_memory d_splice_alias none = returns [] (err_ptr enomem)
with_memory d_splice_alias (some inode) = with_inode inode (d_splice_alias inode)

abbrev pub looked_up : Bool → Bool → (Inode → Spliced) → Option (ℕ × DirEntry) → Lookup
looked_up new_inode kzalloc d_splice_alias none = returns (adds_null ∷ []) null_dentry
looked_up new_inode kzalloc d_splice_alias (some (ino, de)) =
    with_memory d_splice_alias (penguin_fat16_iget new_inode kzalloc ino de)

-- How the walk of a lookup ends.
abbrev pub found_walk : {S : Type 0} → (ℕ × DirEntry → S) → S → Option (ℕ × DirEntry) → Walk S
found_walk g s none = walked s
found_walk g s (some found) = stopped 1 (g found)

-- One entry of the visit, by what the tests of it give.
found_step :
    {S : Type 0} (g : ℕ × DirEntry → S) (start : S) (ended skip same : Bool) (found : ℕ × DirEntry)
    (f : S → Walk S) (rest : Option (ℕ × DirEntry))
    → f start ≡ found_walk g start rest
    → (let (ret, s) : ℕ × S =
          if skip then (0, start) else (if same then (1, g found) else (0, start)) in
        if ended then walked start else (if ret == 0 then f s else stopped ret s))
      ≡ found_walk g start (if ended then none else (if not skip && same then some found else rest))
found_step g start true skip same found f rest ih = refl
found_step g start false true same found f rest ih = ih
found_step g start false false true found f rest ih = refl
found_step g start false false false found f rest ih = ih

module _ (same_letters : List ℕ → List ℕ → Bool) (d_splice_alias : Inode → Spliced)
    (new_inode kzalloc : Bool) where
  abbrev pub splice_found : ℕ × DirEntry → LookupCbdata
  splice_found (ino, de) =
      splice_inode d_splice_alias (penguin_fat16_iget new_inode kzalloc ino de) empty_cbdata

  pub visit-first_named :
      (sbi : SbInfo) (name : List ℕ) (es : List Located)
      → visit (lookup_cb same_letters d_splice_alias new_inode kzalloc sbi name) es empty_cbdata
        ≡ found_walk splice_found empty_cbdata (first_named same_letters sbi name es)
  unfolding lookup_cb
  visit-first_named sbi name [] = refl
  visit-first_named sbi name (e ∷ es) =
      found_step splice_found empty_cbdata (fat16_de_is_end e.de) (fat16_de_is_skip e.de)
        ((length (entry_name e.de) == length name) && same_letters (entry_name e.de) name)
        (fat16_make_ino sbi.bytes_per_sector e.sector e.index, e.de)
        (visit (lookup_cb same_letters d_splice_alias new_inode kzalloc sbi name) es)
        (first_named same_letters sbi name es) (visit-first_named sbi name es)

  lookup_result-with_inode :
      (inode : Inode) (spliced : Spliced)
      → lookup_result same_letters d_splice_alias new_inode kzalloc
          (record { calls = splices inode ∷ []; result = spliced_pointer spliced })
        ≡ with_inode inode spliced
  unfolding lookup_result
  lookup_result-with_inode inode attached = refl
  lookup_result-with_inode inode (alias d) = refl
  lookup_result-with_inode inode (spliced_error e) = refl

  lookup_result-with_memory :
      (inode : Option Inode)
      → lookup_result same_letters d_splice_alias new_inode kzalloc
          (splice_inode d_splice_alias inode empty_cbdata)
        ≡ with_memory d_splice_alias inode
  unfolding lookup_result splice_inode
  lookup_result-with_memory none = refl
  lookup_result-with_memory (some inode) = lookup_result-with_inode inode (d_splice_alias inode)

  -- What the lookup makes of the end of such a walk.
  pub found_walk-looked_up :
      (r : Option (ℕ × DirEntry))
      → ◌≡◌ {A = Lookup}
          (elim (found_walk splice_found empty_cbdata r) [
            | walked lc ↦ lookup_result same_letters d_splice_alias new_inode kzalloc lc
            | stopped ret lc ↦ lookup_result same_letters d_splice_alias new_inode kzalloc lc
            | failed_with e lc ↦ returns lc.calls (err_ptr e)
            | running lc ↦ endless
          ])
          (looked_up new_inode kzalloc d_splice_alias r)
  unfolding lookup_result
  found_walk-looked_up none = refl
  found_walk-looked_up (some (ino, de)) =
      lookup_result-with_memory (penguin_fat16_iget new_inode kzalloc ino de)
