-- ===== src/NeuroSwap/Module.antt =====
-- `nswap_init` and `nswap_exit` of neuro-swap/kmodule/kmain.c: the calls that they make, by what the kernel
-- answers. Errors are positive numbers; 0 is success.
pub mod Balance
use doomsday_kernel_modules.Base.{
  ℕ, ◌+◌, ◌*◌, ◌%◌, ◌^◌, ◌≡◌, Bool, true, false, List, [], ◌∷◌, ◌++◌, ◌==◌, if◌then◌else◌,
}

abbrev pub einval : ℕ
einval = 22

abbrev pub ebusy : ℕ
ebusy = 16

abbrev pub enomem : ℕ
enomem = 12

-- The answers of the kernel: whether `register_blkdev` and `vmalloc` succeed, and the errors of the other
-- calls. `blk_mq_alloc_disk` gives a disk or an error, never NULL.
pub record Kernel : Type 0 where
  pub registers : Bool
  pub allocates : Bool
  pub tag_set_error : ℕ
  pub disk_error : ℕ
  pub add_disk_error : ℕ

-- The calls that succeed in taking something, and those that give it back.
pub data Call : Type 0 where
  register_blkdev vmalloc alloc_tag_set alloc_disk add_disk : Call
  del_gendisk put_disk destroy_queue free_tag_set vfree unregister_blkdev : Call

-- The labels of the error path, from the last to the first.
unfoldable pub err_out_unregister : List Call
err_out_unregister = unregister_blkdev ∷ []

unfoldable pub err_out_free_buffer : List Call
unfolding err_out_unregister
err_out_free_buffer = vfree ∷ err_out_unregister

unfoldable pub err_out_free_tag_set : List Call
unfolding err_out_free_buffer
err_out_free_tag_set = free_tag_set ∷ err_out_free_buffer

unfoldable pub err_out_destroy_queue : List Call
unfolding err_out_free_tag_set
err_out_destroy_queue = destroy_queue ∷ err_out_free_tag_set

unfoldable pub err_out_put_disk : List Call
unfolding err_out_destroy_queue
err_out_put_disk = put_disk ∷ err_out_destroy_queue

-- The calls of `nswap_init` from one on, in order, and its result.
unfoldable pub add_the_disk : Kernel → ℕ × List Call
unfolding err_out_put_disk
add_the_disk kernel =
    if kernel.add_disk_error == 0
    then (0, add_disk ∷ [])
    else (kernel.add_disk_error, err_out_put_disk)

unfoldable pub alloc_the_disk : Kernel → ℕ × List Call
unfolding err_out_free_tag_set add_the_disk
alloc_the_disk kernel =
    let (err, calls) = add_the_disk kernel in
    if kernel.disk_error == 0
    then (err, alloc_disk ∷ calls)
    else (kernel.disk_error, err_out_free_tag_set)

unfoldable pub alloc_the_tag_set : Kernel → ℕ × List Call
unfolding err_out_free_buffer alloc_the_disk
alloc_the_tag_set kernel =
    let (err, calls) = alloc_the_disk kernel in
    if kernel.tag_set_error == 0
    then (err, alloc_tag_set ∷ calls)
    else (kernel.tag_set_error, err_out_free_buffer)

unfoldable pub alloc_the_state : Kernel → ℕ × List Call
unfolding err_out_unregister alloc_the_tag_set
alloc_the_state kernel =
    let (err, calls) = alloc_the_tag_set kernel in
    if kernel.allocates then (err, vmalloc ∷ calls) else (enomem, err_out_unregister)

unfoldable pub nswap_init : ℕ → Kernel → ℕ × List Call
unfolding alloc_the_state
nswap_init nswap_size_mb kernel =
    let (err, calls) = alloc_the_state kernel in
    if nswap_size_mb == 0
    then (einval, [])
    else (if kernel.registers then (err, register_blkdev ∷ calls) else (ebusy, []))

-- `dev.nr_sectors = nswap_size_mb << 11`, on 64 bits
unfoldable pub nr_sectors : ℕ → ℕ
nr_sectors nswap_size_mb = nswap_size_mb * 2 ^ 11 % 2 ^ 64

-- With a disk, which there is after an init that succeeded.
unfoldable pub nswap_exit : List Call
nswap_exit = del_gendisk ∷ put_disk ∷ free_tag_set ∷ vfree ∷ unregister_blkdev ∷ []
