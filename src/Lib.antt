-- ===== src/Lib.antt =====
-- Verification of mimik, a small x86_64 kernel in C.
--
-- The kernel (kernel.c) boots, builds a physical page allocator (mm/pm.c) from the boot loader's
-- memory map, takes over the page tables (arch/x86_64/mm/vm.c), puts a slab heap on top of both
-- (mm/mm.c), gives its sections their rights, and then sets up interrupts (arch/x86_64/cpu) and
-- devices. Messages go through printk (log/printk.c) to the serial port (arch/x86_64/log/put.c); the
-- ACPI tables (common/acpi.c) and the initial archive (common/initfs.c) are mapped and then read where
-- they are. The allocator keeps one bitmap (structs/bitmap.c) for each 128 MB, in an intrusive list
-- (structs/list.c); everything uses the block and string functions of mem/mem.c and mem/str.c.
--
-- Files and what they model:
--   Base           shared names: tests, lists over the native numbers, outcomes of C code
--                  (a result, a failed ASSERT, an undefined access, fuel that ran out), status codes
--                  of include/errors.h, laws of shifts and masks, and in Commands the commands on a
--                  state that the other parts are written in
--   Memory         mem/mem.c over a flat memory of bytes: mem_set, mem_copy, mem_copy_reverse
--   Str            mem/str.c: str_length, str_nlength, str_equal, str_nequal
--   Assert         assert.c: the path that _assert_fail prints
--   Ring           structs/list.c over a store of links: list_init, list_insert, list_remove,
--                  list_length, list_join, list_is_empty
--   Bitmap         structs/bitmap.c: bitmap_from, bitmap_get, bitmap_set
--   Page           include/mem/page.h and include/util/align.h
--   Crc            arch/x86_64/include/util/crc32-arch.h: crc32c
--   Pm             mm/pm.c: State (data and macros), Search (create_bitmap and the find_… functions),
--                  Lock (pm_request_page, pm_try_lock_…, pm_try_release_…), Request
--                  (pm_request_pages, pm_request_bytes), Init (pm_init); Reach has the step relation
--                  of requests and releases
--   Vm             arch/x86_64/mm/vm.c: State (entries, addresses), Window (map_page_tmp,
--                  unmap_page_tmp), Lookup (vm_vaddr_to_paddr, vm_set_backing), Flag, Unmap,
--                  Map and Map.Space (find_space, recurse_map, vm_map_pages and its variants),
--                  Init (vm_init)
--   Heap           mm/mm.c: Sizes (size classes), Mapping (mm_map, mm_map_in_table), Slabs (mm_init,
--                  alloc_slab, mm_alloc, mm_free)
--   Print          log/printk.c: the printers, and in Format the format strings of printk
--   Cpu            arch/x86_64/cpu, arch/x86_64/log/put.c and arch/x86_64/arch.c over a trace of port
--                  accesses: Pic (pic.c), Pit and Handler (pit.c), Idt and Dispatch (isr.c),
--                  Serial (init_serial, putc, puts), Arch (arch_init)
--   Acpi           common/acpi.c: checksum_matches, signature_matches, acpi_get_table, and in Setup
--                  acpi_init and what it calls, which Program
--                  puts on the page tables and the heap
--   Initfs         common/initfs.c: oct_str_to_num, initfs_lookup, and in Mount initfs_from_module
--                  and initfs_release
--   Kernel         kernel.c: kernel_main and its parts, over the states of all the others
--
-- State is passed explicitly: the static variables of a file are one record, and an operation
-- returns the new one. Words are natural numbers with their wrap-around written out. The state of
-- the heap holds that of the page tables, and that one the page allocator's; the kernel's state holds
-- the heap's and the processor's.
--
-- Bounds and fuel. A loop over a C string runs on fuel, enough if it exceeds the string's length.
-- The search for a free page runs on fuel, enough from 32768, the pages of a bitmap, and the
-- search for a run of pages from 32769. A page request
-- can request further pages for a new bitmap; `depth` bounds that nesting, and one level is enough
-- while there is one bitmap. The walks of the page tables recur on the four levels. The search for
-- space in the tables has a bound of its own, since the source may go round for ever; two rounds more
-- than pages are enough at a free hint. The search of the static table for a free entry ends within
-- the table. A slab grows
-- by at most 511 chunks, and a number has fewer than 65 digits, so those loops have fixed bounds. The
-- search of the archive is enough with more rounds than the archive has files. The wait for the serial
-- line polls on fuel, enough where the line is idle within as many polls.
--
-- Assumptions of the model: ranges of memory do not wrap at the end of the address space; the
-- memory of the bitmaps, the links of the lists and the page tables are separate stores, and the
-- static table of the temporary window is none of the page tables. In mm/pm.c the sequence of
-- bitmaps stands for the ring of links, and the allocation of a list node by mm/mm.c is a parameter.
-- In mm/mm.c the links in free chunks are a store of their own. Characters that printk sends are a list. In arch/x86_64/cpu the bytes that ports
-- answer are a function of the accesses so far, and the answers of cpuid, the entry points of the
-- interrupts, and handlers other than the timer's are parameters. The set-up in common/acpi.c uses
-- mapping, the heap and mem_set through an interface, which Acpi/Program fills with the models of
-- these functions. mem_set
-- also clears bytes behind its range: behind the array of handlers and the static table they are part
-- of the state, behind mem_info (mm/pm.c) what is cleared of the state is a parameter, and behind the
-- kernel's and the archive's structures and the list of tables they are not.
--
-- Not modelled: the boot code in assembly (arch/x86_64/boot), which hands over the boot loader's
-- information; its header multiboot2.h, which is a copy from another project; the assembly of
-- arch/x86_64/cpu, which saves the registers around isr_common and lays out the segment table;
-- translation caches (invlpg, vm_flush_tlb), which are no state here; the messages of LOGTRACE and
-- the other macros of include/log/log.h; the stack guard (common/stack-chk.c), which halts; and
-- compiler attributes.
pub mod Base
pub mod Memory
pub mod Str
pub mod Ring
pub mod Assert
pub mod Bitmap
pub mod Cpu
pub mod Crc
pub mod Page
pub mod Pm
pub mod Vm
pub mod Heap
pub mod Print
pub mod Acpi
pub mod Initfs
pub mod Kernel
