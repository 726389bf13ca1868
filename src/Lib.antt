-- ===== src/Lib.antt =====
-- A verification library for the LosTacOS kernel.
--
-- The kernel manages physical pages (src/mm/pmm.cpp), runs tasks from a linked list
-- (src/kernel/sched/scheduler.cpp), and serves system calls on descriptors (src/user/syscall.cpp)
-- that lead to pipes, terminals, devices, mounted file systems and files in memory. A process has a
-- table of 32 descriptors; fork copies it, exit closes it, and each pipe counts the descriptors that
-- hold its ends. At boot a tar archive (src/fs/tarfs.cpp), unpacked by src/lib/gzip.cpp if need be,
-- fills the tree of nodes (src/fs/vfs.cpp), from which src/exec/elf.cpp loads programs into address
-- spaces (src/mm/paging.cpp, src/mm/address_space.cpp).
--
-- Base     shared names: Boolean tests, lists, maps, the bits of a byte (Base/Bits), signed
--          integers (Base/Int), linked lists (Base/Chain), the digits of a|b (Base/Digits) and
--          results with faults (Base/Run).
-- Pmm      src/mm/pmm.cpp. The record Pmm holds the bitmap, the cursor last_page and the counters;
--          reserve_region, free_region, init, alloc_page, free_page, free_memory, total_memory and
--          used_memory are the functions of those names. The multiboot memory map is a list of tags.
--          Pmm/Bitmap is set_bit, clear_bit and test_bit, Pmm/Count the counter of free pages,
--          Pmm/Region the two region operations, Pmm/Alloc allocation, Pmm/Boot init.
-- Fd       the descriptor tables and pipes of src/user/syscall.cpp, with the types of
--          include/LTOS/sched/process.hpp and include/LTOS/fs/vfs.hpp. The record Sys holds the
--          tables of all processes, the pipes, pipe_used and the nodes. Fd/Table is sys_close,
--          sys_close_all, sys_dup, sys_dup2, sys_fcntl, alloc_fd and the copy of the table in clone
--          of src/kernel/sched/scheduler.cpp; Fd/Table/Refs is the invariant of the reference counts.
--          Fd/Pipes is sys_pipe and the pipe branches of sys_write and sys_read, Fd/Io the whole of
--          sys_write, sys_read, sys_lseek and sys_fsize.
-- Sched    src/kernel/sched/scheduler.cpp: add, remove_and_destroy, destroy_task, reap, schedule,
--          set_current_regs, find and exit, over a memory of tasks in which pointers are addresses.
--          Sched/Chain relates the linked list to a list of addresses; Sched/Reap is reap over it,
--          Sched/Turn the whole of schedule.
-- Strings  src/lib/string.cpp: the memory functions with their aligned and unrolled loops over a
--          memory of bytes, in Strings/Text those on C strings.
-- Heap     src/mm/heap.cpp: init, kmalloc and kfree over the headers and the footers of the blocks.
--          Heap/Tiling is the cutting of a block in kmalloc, Heap/Merging the joining in kfree.
-- Paging   src/mm/paging.cpp: alloc_page as get_page, map_page, map_range, unmap_page, virt_to_phys
--          and reserve_below, over the entries of the tables; invlpg is recorded.
--          Paging/Spaces is the creation, copy and destruction of address spaces, with
--          src/mm/address_space.cpp and src/mm/vmm.cpp. Paging/Levels is the tree of tables,
--          Paging/Mapping what map_page makes of it.
-- Mounts   find_mount of src/fs/mount.cpp and the registry of src/fs/fs.cpp.
-- Vfs      src/fs/vfs.cpp and mount and umount of src/fs/mount.cpp, over a memory of nodes; a result is
--          a Run, which can also be a fault or the end of the fuel. Vfs/Paths splits and builds paths,
--          Vfs/Find is find with mounts and symbolic links, Vfs/Content files in memory and remove,
--          Vfs/Handles and Vfs/Nodes reading and writing, Vfs/Texts the text of a file, Vfs/Mounting
--          the mounts. Vfs/Tree is the view of the nodes as directories that are lists of entries.
-- Tty      src/fs/devfs/tty.cpp: reading by line and raw, ioctl and switch_vt. The bytes that come by
--          interrupts in each round of a loop are a list of lists. Tty/Lines is the editing of a line.
-- Keyboard src/kernel/drivers/keyboard.cpp: process_scancode and irq_handler from scan codes to events
--          and bytes for the terminal, with the tables in Keyboard/Keys. Keyboard/Queue is the ring of
--          events as a list, Keyboard/Bounds the sizes of the buffers.
-- Kprintf  src/lib/kprintf.cpp: kvsnprintf and kvprintf, which share their text in the model: the loop
--          over a format works on a sink, a buffer or the console. Kprintf/Numbers is the digits of a
--          number, Kprintf/Texts the text of each conversion, Kprintf/Loop that of a format,
--          Kprintf/Buffer the two sinks.
-- Gzip     src/lib/gzip.cpp: bits, Huffman tables and symbols; Gzip/Blocks is inflate_block, the three
--          kinds of blocks and decompress. Gzip/Decode is what build_huffman makes, Gzip/Blocks/Grows
--          the bytes that a step may write.
-- Tarfs    src/fs/tarfs.cpp: headers, octal_to_int, build_index, find and read over a memory of bytes;
--          Tarfs/Mount is mount, which may unpack with Gzip, and mount_vfs over Vfs. Tarfs/Index is the
--          index of an archive as the list of its members, Tarfs/Loops when the loop ends.
-- Elf      src/exec/elf.cpp: load over the content of a file, the page tables and the bytes of the
--          pages; Elf/Segments is the bytes that a page gets.
-- Isofs    src/fs/isofs.cpp: mount, isofs_open and isofs_read over the blocks of a disc, which
--          drivers/ahci reads; Isofs/Read is the bytes of a file.
--
-- Bounds and fuel. Machine arithmetic that can wrap has its `% 2 ^ 64` written out. The loops over
-- the bitmap, the tables and the pipes have the source's own bounds. The loops over the task list
-- take fuel, of which more than the list has tasks is enough. The loops of memcpy, memset and memcmp
-- run at most once per byte, and get that fuel. The loops over the blocks of the heap take fuel, one
-- for each block that they visit, and map_range one for each page. The loops over C strings take
-- fuel; one more than the length of the string is enough. The loops over the children of a directory
-- take the fuel walk, of which more than there are children is enough. Each call of find takes one unit
-- of fuel; a path without symbolic links needs one. The reading of a line takes one for each byte and
-- each round with an interrupt. The loop over a format gets one more than the format is long; the digits of a number
-- have the 64 places of their buffer. inflate_block gets one more than the capacity of the output; the
-- loop over the blocks takes one for each block, and the loops over an archive one for each header.
-- The loop over the pages of a segment takes one for each page. isofs_read gets one more than the bytes it reads.
--
-- Parameters. FileSystems and Allocator are what the tree of nodes calls: the callbacks of mounted
-- file systems and devices, and the heap. Drivers is the record of what descriptors call: the
-- callbacks of devices and file systems, the terminal, and the heap. An allocation may fail; Supplies
-- says that the next ones do not and give no block that is a node. Blocks gives the addresses of what
-- belongs to a node. Screen is what formatted output calls: the console, the frame buffer, the serial
-- line.
--
-- Not modelled: the system calls on the tree of nodes (sys_open, sys_stat) and those on processes and
-- memory, FAT and the synthetic file systems, the console; of src/kernel/sched/scheduler.cpp the
-- creation of processes and stacks; of src/lib/string.cpp strlen and strsplt; of
-- src/kernel/drivers/keyboard.cpp getchar and getstring. The other drivers, boot and assembly depend on
-- hardware.
pub mod Base
pub mod Pmm
pub mod Fd
pub mod Sched
pub mod Strings
pub mod Mounts
pub mod Heap
pub mod Paging
pub mod Vfs
pub mod Tty
pub mod Keyboard
pub mod Kprintf
pub mod Gzip
pub mod Tarfs
pub mod Elf
pub mod Isofs
