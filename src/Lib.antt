-- ===== src/Lib.antt =====
-- A model of openv, a RISC-V microkernel with its user-space servers, and what is proved of it.
--
-- The kernel (src/) gives every process a table of handles to kernel objects, and processes talk
-- over channels of messages that carry bytes and handles. Servers in user space (user/) provide
-- files, drivers and the network over those messages.
--
-- Common: the shared names, lists indexed by native numbers, byte buffers (Common/Bytes),
--   fixed-width integers as bytes (Common/Words) fields of bits (Common/Bits) and
--   laws by evaluation (Common/Table).
-- Errno: the error codes of src/errno.rs, as `usize` values.
-- Ipc/Object, Ipc/Handle: src/ipc/handle.rs. The B-tree map of `HandleTable` is a function from ids to
--   optional entries, the set of close-on-exec handles a list; `none` as the result of an insertion is
--   the panic of a full table. A reference-counted payload of a `KernelObject` is a number that names
--   the object. Ipc/Handle/Codec, Free, Entries and Cloexec prove the laws of handle numbers, of
--   insertion, of lookup and removal, and of `close_on_exec`.
-- Ipc/Port, Ipc/Channel: src/ipc/port.rs and src/ipc/channel.rs. The objects that endpoints share are
--   cells of a record `World`; a dropped endpoint or epoll instance has no cell, so that a weak
--   reference to it does not upgrade. `World` also logs which pids were enqueued and which wakers
--   were woken. An operation of one endpoint runs without interruption: the locks that it takes
--   and their order are not modelled. What the standard library's counts of references say when entries
--   are dropped is an argument (`References`), which the writes consult when the peer is gone: the
--   objects whose last reference goes, of which endpoints and epoll instances are dropped as the code
--   does it and the others by an argument.
-- Ipc/Channel/Fifo, Ipc/Channel/Run: what writes and receives do to a queue, for one call and for
--   histories of calls; Ipc/Channel/Closed what the drop of an endpoint leaves at its peer.
-- Ipc/Syscall: the calls of src/syscall/ipc.rs that duplicate handles, and the handle side of
--   `sys_channel_write` and `copy_msg_to_user`. The caller's memory is a parameter (`UserMemory`).
--   Ipc/Syscall/Duplicate and Ipc/Syscall/Transfer state what becomes of rights and of entries.
-- Mm/Vmm: src/mm/vmm.rs, the page tables, in the memory of Mm/Pmm. Mm/Vmm/Entry has the bit fields of
--   entries, Mm/Vmm/Tables says what each page serves as when the tables are a tree, Mm/Vmm/Extend and
--   Mm/Vmm/Descend are the rounds of `map_page`, Mm/Vmm/Mapping what it does to the translation of
--   addresses. Mm/Vmm/Fault is the copy on a write to a shared page,
--   Mm/Vmm/Unmap the loop of `unmap_range`, whose fuel is the number of pages of the range,
--   Mm/Vmm/Demand the page that a fault on an address without one gets, where the swap is an argument and
--   the jobs are those of Posix/Job. Mm/Vmm/Empty and Mm/Vmm/Shared are data for tests. The flush of
--   translation buffers and of other harts is not modelled.
-- Mm/Vmo: src/mm/vmo.rs, memory objects and the pages that they take and give back (Mm/Vmo/Pages).
-- Mm/UserPointer: the test of user pointers of src/mm/vmm.rs.
-- Mm/Pmm: src/mm/pmm.rs. Physical memory is a function from a page's address and a word's index to the
--   word, because the manager writes whole words and whole pages. `Outcome` tells a panic from a
--   result. Mm/Pmm/Chain says what a free list in memory is, Mm/Pmm/Frames what allocation and release
--   do to it, Mm/Pmm/Boot is the loop of `init`, Mm/Pmm/Boot/Valid the state that it leaves. The fuel of
--   that loop is the number of pages below the end of RAM; that no usable page is left out shows that
--   it is enough. Addresses do not wrap round.
-- Mm/Swap: src/mm/swap.rs. Mm/Swap/RoundTrip is about the compression, whose loops have the page size as
--   fuel. Mm/Swap/Table is the map of swapped pages, an association list with a slot per key, with its
--   two counters, and `swap_in` over an interface `Frames` to the frame allocator and the page tables;
--   Mm/Swap/Accounts and Mm/Swap/Restore say what becomes of the counters and of the pages.
-- Net/Ethernet, Net/Arp, Net/Ipv4, Net/Checksum: src/net/core.rs. Arrays of fixed size are records, and
--   a buffer that a call writes is passed on beside its result. Three rounds of carries are enough for
--   a sum of 32 bits, as Net/Checksum/Verify shows.
-- Net/Virtqueue: src/net/virtqueue.rs. The shared page is a record of its fields; a queue
--   of size 0 panics when it looks for a completion. Net/Virtqueue/Chains is
--   about one chain of descriptors, Flight about the chains that the device has, Steps about any sequence
--   of steps of driver and device, Used about the loop over completions, Layout about the page. The fuel
--   of the walks over chains is the number of descriptors.
-- Ofs: user/vfs-server/src/blockfs.rs, the file system on a block device (user/vfs-server/src/blockio.rs).
--   Ofs/Device is the device: which blocks can be read, and of the writes to come which succeed; a write
--   that the machine does not survive, and all after it, fail. A block is written whole or not at all.
--   Ofs/Journal has the phases of `commit_txn` and `journal_replay`, Ofs/State the pending transaction, a
--   map sorted by block number, Ofs/Cache, Ofs/Inode, Ofs/Bitmap and Ofs/Table the inodes and bitmaps,
--   Ofs/Blocks, Ofs/File, Ofs/Dirent, Ofs/Dir, Ofs/Dir/Unlink and Ofs/Format the operations on files and
--   directories, `mkfs` and `new`. Ofs/Run chains steps that change the state and may panic.
--   Ofs/Journal/Recovery says what a disk holds, as recovery sees it, Ofs/Journal/Ends how a run of writes
--   ends, Ofs/Journal/Commit and Replay what commit and replay make of a disk; Ofs/Journal/Atomic,
--   Ofs/State/Crash and Ofs/Format/Mount follow a transaction through crashes. The loops over blocks of a
--   file have the bytes left as fuel, of which a round takes one at least. Only the search for a free slot
--   in a directory may not end; its fuel is an argument. Names are lists of bytes. `dir_readall` and
--   `lookup_path` are not modelled.
-- Posix/Job: src/posix/job.rs. A job is named by a number, and its parent by a smaller one, which is the
--   fuel of the loops over ancestors. Posix/Job/Line is about these loops, Posix/Job/Accounts about the
--   limits, Posix/Job/Undo about giving memory back.
-- Proto/Vfs: user/vfs-proto/src/lib.rs, the requests and replies of the file server. Proto/Fields writes
--   and reads rows of integers of fixed width, and Proto/Vfs/Requests goes through the messages.
-- Proto/Process: user/pm-proto/src/lib.rs, the requests of the process manager. Whether bytes are UTF-8 is
--   a parameter.
-- Proto/Driver: user/driver-abi/src/lib.rs, the descriptors of drivers. An offset into the buffer is the
--   list of the bytes behind it.
-- The Tests modules run the definitions on concrete data and apply every theorem below.
--
-- Loops over lists recur on the list. `lowest_free` recurs on the number of ids left, 65536 at the
-- start, as its range has them. Process scheduling, interrupts, device registers and assembly are
-- not modelled: they are effects outside the data that the modules above describe.
pub mod Common
pub mod Errno
pub mod Ipc
pub mod Mm
pub mod Net
pub mod Ofs
pub mod Posix
pub mod Proto
