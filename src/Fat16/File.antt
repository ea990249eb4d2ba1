-- ===== src/Fat16/File.antt =====
-- `penguin_fat16_read_iter` of penguin-fat16/kmodule/file.c. `running` is a read that has followed more
-- clusters than the fuel.
pub mod Whole
mod Tests
use doomsday_kernel_modules.Base.{
  ℕ, zero, suc, ◌+◌, ◌-◌, ◌%◌, ◌^◌, Bool, Option, List, [], ◌++◌, leb, ltb, ◌==◌, min,
  if◌then◌else◌, length, take,
}
use doomsday_kernel_modules.Fat16.Layout.{fat16_final_cluster}
use doomsday_kernel_modules.Fat16.Cluster.{
  SbInfo, IoError, eio, enomem, einval, fault, Io, ok, failed, fat16_next_cluster,
  fat16_read_cluster,
}

-- What has been copied to the caller, and how the read ends.
pub data Read : Type 0 where
  copied : List ℕ → Read
  broken : IoError → List ℕ → Read
  running : List ℕ → Read

-- A failed call gives EIO, whatever its error is.
unfoldable pub as_eio : IoError → IoError
as_eio eio = eio
as_eio enomem = eio
as_eio einval = eio
as_eio fault = fault

-- The number of bytes that the read is to give: `loff_t` and `size_t` differences on 64 bits.
unfoldable pub requested : ℕ → ℕ → ℕ → ℕ
requested count file_size ki_pos =
    let left = (file_size + 2 ^ 64 - ki_pos) % 2 ^ 64 in if ltb left count then left else count

-- `copy_to_iter` is the number of bytes that it takes of those that it is given.
module _ (sb_bread : ℕ → Option (List ℕ)) (copy_to_iter : ℕ → ℕ) where
  unfoldable pub read_loop : SbInfo → ℕ → ℕ → ℕ → List ℕ → Read
  unfolding as_eio
  read_loop sbi zero bytes_requested cluster out =
      if leb bytes_requested (length out)
      then copied out
      else (if leb fat16_final_cluster cluster then copied out else running out)
  read_loop sbi (suc fuel) bytes_requested cluster out =
      let wanted = min sbi.bytes_per_cluster (bytes_requested - length out) in
      let next : Read = elim (fat16_read_cluster sb_bread sbi cluster) [
        | failed e ↦ broken (as_eio e) out
        | ok buf ↦
            let out' = out ++ take wanted buf in
            let onward : Read = elim (fat16_next_cluster sb_bread sbi cluster) [
              | failed e ↦ broken (as_eio e) out'
              | ok cluster' ↦ read_loop sbi fuel bytes_requested cluster' out'
            ] in
            if copy_to_iter wanted == wanted
            then onward
            else broken eio (out ++ take (copy_to_iter wanted) buf)
      ] in
      if leb bytes_requested (length out)
      then copied out
      else (if leb fat16_final_cluster cluster then copied out else next)

  -- The result of the read and the new `ki_pos`; `allocated` is whether `kmalloc` gives a buffer.
  unfoldable pub penguin_fat16_read_iter : SbInfo → Bool → ℕ → ℕ → ℕ → ℕ → ℕ → Read × ℕ
  unfolding read_loop requested
  penguin_fat16_read_iter sbi allocated fuel start_cluster file_size ki_pos count =
      let result =
        read_loop sbi fuel (requested count file_size ki_pos) (start_cluster % 65536) [] in
      let moved : ℕ = elim result [ copied out ↦ ki_pos + length out | _ ↦ ki_pos ] in
      if allocated then (result, moved) else (broken enomem [], ki_pos)
