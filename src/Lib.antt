-- ===== src/Lib.antt =====
-- A verification library for the kernel modules and the allocator of this repository. A definition has
-- the name of the C function that it translates; the comment at the top of each file names the C file.
--
-- The parts, and the files that model them:
--
-- * penguin_malloc/src, in PenguinMalloc. `Config` has the constants of config.h and sums, differences
--   and products of `size_t`, which wrap at 2^64. `Util` is util.c: rounding to pages, powers of two,
--   decimal digits. `BuddyUtil` is buddy_util.c: the bitmap over the blocks of every layer, a list of
--   bytes, and the arithmetic between blocks and addresses. `Freelist` is freelist.c over a memory of
--   words. `Buddy` is buddy.c: the struct `buddy_alloc_t` is a record, the free blocks lie in the
--   memory, and `buddy_alloc` and `buddy_free` return the new record and the new memory. `SlabCaches`
--   and `Slab` are slab.c: the struct of a slab is a record, those of its caches are records by their
--   addresses, so that links and what is read through them alias as in C, and the headers and links of
--   the objects are words of the memory. `Malloc` is penguin_malloc.c: the array of slabs and what
--   they share with the buddy allocator are the globals that `penguin_malloc` and `penguin_free` pass
--   on. `Slab.Users` runs a sequence of allocations and frees on one slab, and `Buddy.Sequence` a
--   sequence of allocations of blocks. `Pfalloc` is pfalloc.c, and `Operators` is new.cpp. An access past the bitmap or the lists, a
--   division by zero, the shift of a bit of the bitmap by 64 or more and the use of a NULL slab are `none`;
--   the shift of a block size by 64 or more, undefined in C, gives 0. The `int`s of `buddy_free` have 32 bits.
-- * telegram-fs/kmodule, in TelegramFs. `Kernel` is the interface of what the module calls in the kernel:
--   scnprintf, strscpy, strsep and kstrtoint, each with what is documented of it. `Bus` has the ring of
--   outgoing messages of bus.c (`bus_enqueue_outgoing`, `bus_read`, `bus_poll`), `Chat` the chats of
--   chat.c (`chat_read`, `chat_write`, `chat_poll`) and `bus_write` of bus.c, which changes the chats. A
--   write to a chat calls `bus_enqueue_outgoing`, a write to the bus appends to a chat. Each call
--   is one step, which the mutexes ensure but for one gap: `chat_write` lets the mutex of the chat go before
--   `bus_enqueue_outgoing` takes that of the bus, and what others do in between is not modelled; a read that waits is given the ends of its waits in order, each a signal or
--   the state that others have left. Whether a copy from or to the user succeeds is an argument. `Module`
--   is main.c: what init and exit register, by the answers of the kernel. `System` runs any sequence of
--   calls from the state that init leaves, and `System.Delivery` gives the texts that have been sent and
--   those that the bus has handed out.
-- * penguin-fat16/kmodule, in Fat16. `Layout` is fat16.h, on `u32`, with the fields of the boot sector
--   and of directory entries that are read, and `fat16_make_ino` of inode.c. `Name` has the two
--   conversions of names of fat16.c, with `strsep` and `toupper` as parameters. `Cluster` has
--   `fat16_next_cluster` and `fat16_read_cluster` over a block device that gives the bytes of a block
--   or fails. `Dir` has the walk over a directory of dir.c and the call of `iterate_shared`; `Inode` has
--   the lookup with its call, `iterate_shared` and the making of inodes, with `d_splice_alias` as a
--   parameter. The clusters of a directory or a file are a list with their bytes (`Cluster.Chain`), along
--   which the table leads to an end marker. `File` has `penguin_fat16_read_iter` of file.c. `Super` is
--   super.c, with the mount that fills the `SbInfo` that all the others read, and the registration of main.c.
-- * neuro-swap/kmodule, in NeuroSwap. `Float` is the interface of the operations on float and double that
--   the module uses; `Math` is math.c and `Network` is inference.c over it, with the arrays of weights.h,
--   which training generates, as a parameter. `Device` is the request handler of kmain.c: a write runs
--   the network over its bytes, a read is what the network recalls, and the network is the whole state.
--   `Module` is init and exit of kmain.c, as the calls that they make by the answers of the kernel.
--   `Userspace` is umain.c, whose system calls on the device are parameters.
--
-- Base has what the parts share: lists with native numbers, tests, bits, loops, texts of C, and in
-- `Registry` what is held after a sequence of calls that take things and give them back. The files named
-- Tests apply the theorems at concrete values; those named Runs try the code, and `TelegramFs.Sample` is
-- a kernel that is a concrete function.
--
-- Loops are recursion on the data or on a number. The loops of util.c that count up have fuel; the
-- theorems on them show that it is enough for all arguments in their range. The walk over the clusters of
-- a directory and the read of a file have fuel, since a chain of clusters on a damaged volume may go
-- round; a walk or a read that has followed more clusters than that is `running`. The loop of
-- `slab_cache_alloc` over the caches has fuel, which is enough when it is more than the number of caches
-- that the links lead through; links that go round are `none` with any fuel.
--
-- Not modelled: weights.h, which is generated; the Python programs in user space and the tests of the
-- parts; getattr and llseek of penguin-fat16, which only call the kernel; log messages, and the
-- fields of file and device structs that only the kernel reads.
pub mod Base
pub mod Fat16
pub mod NeuroSwap
pub mod PenguinMalloc
pub mod TelegramFs
