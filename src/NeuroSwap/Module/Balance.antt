-- ===== src/NeuroSwap/Module/Balance.antt =====
-- What `nswap_init` and `nswap_exit` take from the kernel and give back.
use doomsday_kernel_modules.Base.{
  ℕ, ◌≡◌, ◌≢◌, ◌↔◌, refl, Bool, true, false, Option, some, List, [], ◌∷◌, ◌++◌, ◌==◌, arith, Act,
  takes, gives, replay,
}
use doomsday_kernel_modules.NeuroSwap.Module.{
  Kernel, Call, register_blkdev, vmalloc, alloc_tag_set, alloc_disk, add_disk, del_gendisk,
  put_disk, destroy_queue, free_tag_set, vfree, unregister_blkdev, nswap_init, nswap_exit,
}

-- The request queue comes with the disk.
pub data Resource : Type 0 where
  major buffer tags disk queue live : Resource

abbrev pub number : Resource → ℕ
number major = 0
number buffer = 1
number tags = 2
number disk = 3
number queue = 4
number live = 5

abbrev pub same : Resource → Resource → Bool
same a b = number a == number b

-- `with_queue` is whether `put_disk` frees the queue of the disk as well.
abbrev pub acts : Bool → Call → List (Act Resource)
acts with_queue register_blkdev = takes major ∷ []
acts with_queue vmalloc = takes buffer ∷ []
acts with_queue alloc_tag_set = takes tags ∷ []
acts with_queue alloc_disk = takes disk ∷ takes queue ∷ []
acts with_queue add_disk = takes live ∷ []
acts with_queue del_gendisk = gives live ∷ []
acts true put_disk = gives disk ∷ gives queue ∷ []
acts false put_disk = gives disk ∷ []
acts with_queue destroy_queue = gives queue ∷ []
acts with_queue free_tag_set = gives tags ∷ []
acts with_queue vfree = gives buffer ∷ []
acts with_queue unregister_blkdev = gives major ∷ []

abbrev pub all_acts : Bool → List Call → List (Act Resource)
all_acts with_queue [] = []
all_acts with_queue (call ∷ calls) = acts with_queue call ++ all_acts with_queue calls

-- What is held after the calls, from nothing on; `none` if something was given back twice.
abbrev pub held_after : Bool → List Call → Option (List Resource)
held_after with_queue calls = replay same (all_acts with_queue calls) []

-- An init that fails at any call but the last leaves nothing taken.
pub nswap_init_failed :
    (size : ℕ) (kernel : Kernel) (with_queue : Bool)
    → (nswap_init size kernel).0 ≢ 0
    → kernel.add_disk_error ≡ 0
    → held_after with_queue (nswap_init size kernel).1 ≡ some []
unfolding nswap_init
nswap_init_failed size kernel true failed added = ground arith
nswap_init_failed size kernel false failed added = ground arith

-- What an init that succeeds has taken is given back by nswap_exit, nothing twice, exactly if put_disk frees
-- the queue of the disk.
pub nswap_exit_balanced_iff :
    (size : ℕ) (kernel : Kernel) (with_queue : Bool)
    → (nswap_init size kernel).0 ≡ 0
    → (held_after with_queue ((nswap_init size kernel).1 ++ nswap_exit) ≡ some [])
      ↔ (with_queue ≡ true)
unfolding nswap_init nswap_exit
nswap_exit_balanced_iff size kernel true done = (λ h. refl, λ h. ground arith)
nswap_exit_balanced_iff size kernel false done = (λ h. ground (arith, h), λ h. cc)

-- An init that fails at its last call, add_disk, leaves nothing taken and gives nothing back twice exactly if
-- put_disk does not free the queue of the disk.
pub nswap_init_add_disk_iff :
    (size : ℕ) (kernel : Kernel) (with_queue : Bool)
    → size ≢ 0
    → kernel.registers ≡ true
    → kernel.allocates ≡ true
    → kernel.tag_set_error ≡ 0
    → kernel.disk_error ≡ 0
    → kernel.add_disk_error ≢ 0
    → (held_after with_queue (nswap_init size kernel).1 ≡ some []) ↔ (with_queue ≡ false)
unfolding nswap_init
nswap_init_add_disk_iff size kernel true pos registers allocates no_tag_error no_disk_error
      refused =
    (λ h. ground (arith, h), λ h. cc)
nswap_init_add_disk_iff size kernel false pos registers allocates no_tag_error no_disk_error
      refused =
    (λ h. refl, λ h. ground arith)
