-- ===== src/Lib.antt =====
-- unos-kernel: models of the kernel's C code and proofs about them.
--
-- The kernel boots, reserves and hands out physical pages, maps memory, reads a FAT32 disk, counts
-- timer interrupts and runs small tasks. Each part below is translated function by function from
-- the file that its comment names; a function that changes global variables takes the old state
-- and returns the new one. NULL is `none`; in the string library `none` is undefined behaviour, a
-- read or write past the object that a pointer leads into or a signed overflow. Addresses and
-- sizes are numbers, and wrap-around is written out where the code can reach it. Lines that only
-- print are left out.
--
-- - Prelude: Boolean tests, lists, signed integers and the laws of bit masks.
-- - Memory.PageAlloc (kernel/memory/malloc.c): page_bitmap and last_allocated_index as `Pages`;
--   palloc_page, free_phys_page, pmm_free, dma_alloc_page, init_phys_allocator. Claim is about
--   handing out, Free about giving back, Owner about sequences of both, Mark about the boot
--   reservation. The marking loops run on fuel, one round for each page of the longest range and
--   one more: Mark proves that this is enough.
-- - Memory.Bump (kernel/memory/malloc.c): align_up, kmalloc, palloc_aligned, whose state is one
--   pointer each.
-- - Memory.Paging (kernel/memory/paging.c; get_physical_address of malloc.c): memory as a function
--   from the address of a word to its value, and next_free_page. Walk says what the processor
--   makes of the tables, large pages included; Tree is the invariant that tables form a tree below
--   the root and lie under the free memory; Ensure and Grow are about tables made on the way,
--   Reach and Write about the entries, Map about one round and Loop, Identity and Virtual about
--   the loops, Physical about get_physical_address, Directory about virt_to_phys, and User is
--   map_virtual_user with its tables. The loops run on fuel; one round for each page and one more
--   is enough.
-- - Strings (Include/kstring.c): a `char *` is the list of bytes from the pointer to the end of
--   its object. Compare has the readers, Move the writers, Convert numbers and text. The digit
--   loops stop after 20, 11 and 16 rounds as in the code.
-- - Scheduler (kernel/scheduler/task.c and scheduler.c): the task pool with links as indices, and
--   dotask, whose calls of task functions are a trace.
-- - FileSystem (fs/vfs.c): fat32_next_cluster and Fat32Read over ahci_read, a parameter that gives
--   the bytes of sectors or an error; Chain has the contents of a chain and the loop that copies
--   them, Read the skipping loop and the whole, and Allocate has Fat32FindFreeCluster. Lookup has
--   Fat32Lookup and Fat32Open: LongName is about long names put together from their pieces,
--   Directory about the search, Path about paths. Write has VFSMountFAT32Root, VFSReadFile and the
--   functions that write, over a device with a state: Table and Stored are about
--   Fat32WriteFATEntry, Entry about one entry of the table, Partition about what is read after it,
--   Create and Full about Fat32CreateFile. The DMA buffers are taken to be given. The skipping
--   loop runs on fuel, a round for each cluster of the chain; the reading loop stops after 4096
--   clusters as in the code.
-- - Interrupts (kernel/idt/isr_handler_c.c, kernel/idt/idt.c, drivers/watchdog/wdsoft.c): the
--   clock, the watchdog and the handler that advances both.
-- - Serial (drivers/com/com.c, kernel/logging/printk/printk.c): serial_print, serial_print_hex,
--   serial_printf, serial_vprintf and Printk, whose result is the list of bytes sent to the port
--   and `none` undefined behaviour; the loop has an outcome of its own for fuel that runs out.
--   Directive is what a format means, Scan the body of the loop, Format and Printk the loop on the
--   bytes of directives, Unfinished a format that ends inside a directive, Hex and Numeral the
--   numbers. The loop runs on fuel, a turn for each byte of the format; Fuel proves that this is
--   enough.
-- - Storage (drivers/storage/ahci.c): the command slots, the commands that ahci_read and
--   AHCIWriteToStorage put there, the loops that wait for the device, and the search for a port,
--   over the values that the device's registers show. Transfer is about a command's fields and its
--   table, Layout about where ahci_port_rebase puts the structures, Probe about the two searches,
--   Wait about the loops, Read about ahci_read as a whole. What the functions write, to the slots
--   and the two registers, is a list in order. The loop behind a started command has no bound in
--   the code: it runs on fuel, and Wait says how many polls it takes.
-- - Acpi (acpi/madt.c): the variables of the file as `Tables`, the memory as a function from
--   addresses to bytes. UEFIParseMADT is a walk with fuel, of which half the bytes of the table
--   are enough, since every entry has two bytes or more; Walk is about any memory, Overrides about
--   what a table lists, Apic has the redirection table and the timer of the local APIC. What the
--   timer shows when it is read is a function of the number of the read.
-- - Console (fs/ext/psf.c, graphics/alpaca_gdi.c): the cursor of the text console, whose drawing
--   and scrolling are events, in DrawSimplePSFText and PSFPutChar with the font ready; Cursor is
--   about the screen's bounds, Backspace about rubbing out, Glyph has put_pixel and draw_glyph on
--   the framebuffer and Pixel what they set, Picture the bytes of a glyph.
-- - Tests: runs at small inputs, and each theorem at an input that meets its hypotheses.
--
-- Not modelled: unmap_page and the DMA allocator, boot_aps and send_ipi, the FADT, the other
-- device drivers, the GPT parser, the directory printer of drivers/storage/fat32.c, the font
-- header and the rest of the graphics, and the shell, and all assembly. Task functions are taken
-- to leave the task pool alone, as those in FunctionList do.
pub mod Prelude
pub mod Acpi
pub mod Console
pub mod FileSystem
pub mod Interrupts
pub mod Memory
pub mod Scheduler
pub mod Serial
pub mod Storage
pub mod Strings
pub mod Tests
