-- ===== src/Lib.antt =====
-- tensix, a small operating system kernel: the parts that hold its data together, and their proofs.
--
-- Queue.antt        lib/queue.c, include/queue.h: doubly-linked queues and cyclic lists (dequeue_*,
--                   clist_*) over a heap of nodes. A header stands outside the heap and is returned.
-- Bitmap.antt       lib/bitmap.c, include/bitmap.h: bit access and bitmap_seek.
-- Mem.antt          kern/mem/mem.c, include/mem.h: the page allocator over the page bitmap of
--                   Bitmap.antt, with the table of page infos and the count of free pages.
-- Fragments.antt    kern/mem/mem.c, include/mem.h, include/queue.h: blocks of half a page and less,
--                   on stacks of fragments that pages of Mem.antt are divided into.
-- Pool.antt         kern/mem/pool.c, include/pool.h: record pools, two queues of Queue.antt.
-- Strings.antt      lib/string.c: blocks and strings in a memory of bytes.
-- Namespace.antt    kern/io/namespace.c: path names, from characters to objects.
-- Proc.antt         kern/proc/proc.c, kern/proc/lock.c and machdep_switch of kern/machdep/machdep.c:
--                   the lists of running and of sleeping processes (cyclic lists of Queue.antt, with
--                   descriptors of a pool of Pool.antt) and the semaphores.
-- Buffers.antt      kern/io/buf.c, the buffer calls of kern/io/fs.c, obj_io of kern/io/obj_ops.c and
--                   sync_bufs of kern/io/syncer.c: the cache of I/O buffers, over lists of buffers.
-- Files.antt        array.c, include/array.h and open2, closep, fs_kill_proc of kern/io/fs.c: the handles of the
--                   processes and the reference counts of the objects. The references that have no
--                   handle, as of a working directory, stand beside them as a number.
-- Channels.antt     kern/io/iod.c, include/iod.h: the I/O daemon's channels, over queues of Queue.antt,
--                   a pool of Pool.antt, the handles of Files.antt and the cache of Buffers.antt.
-- Copying.antt      iod_copy_buf of kern/io/iod.c: how a channel cuts a stream of bytes into blocks.
-- Objects.antt      kern/io/obj.c, kern/io/obj_dir.c, kern/io/obj_ops.c, kern/io/fs.c: objects and their
--                   directory entries, create and unlink, over Buffers.antt, Files.antt, Channels.antt.
-- Memfs.antt        fs/memfs/memfs.c: the memory file system's directories.
-- Print.antt        lib/klibc.c: numbers and formats on the console.
-- Base.antt         shared names, tests on numbers, arrays and sets of addresses.
--
-- The configuration is conf/generic.h with what include/config.h always sets: checks are on,
-- diagnostics are off, pages are zeroed. Pointers are numbers, 0 is NULL. A function that changes
-- memory or a global returns it. Integers keep their width: a page number, a lock counter and a
-- process id are bytes, `size_t` has 32 bits. Loops that no counter bounds run on fuel:
-- `bitmap_seek` on one more than the bits left, `mem_pages_unref` on 257 rounds, one more than
-- there are pages, `pool_create` on one more than the area's bytes, a path's lookup on one more
-- than its characters, `bcleanup` on one more round than the object has buffers, `iod_copy_buf` on
-- one more than the block's bytes. For these the results below say that the fuel is enough. The
-- functions on strings and on locks take fuel as an argument, and their results say how much is
-- enough.
--
-- Not modelled: the console's driver, log output, events, diagnostics that only print or panic,
-- locks that the configuration compiles out, machine code and device drivers, the other file
-- systems behind the namespace (its directories and the classes' operations are arguments), the
-- round of the I/O daemon over its channels, the loops of `fs_kill_proc` over buffers and
-- directories, the shell, and the copy of the uIP stack.
pub mod Base
pub mod Queue
pub mod Bitmap
pub mod Files
pub mod Fragments
pub mod Memfs
pub mod Objects
pub mod Print
pub mod Pool
pub mod Proc
pub mod Buffers
pub mod Channels
pub mod Copying
pub mod Strings
pub mod Namespace
pub mod Mem
