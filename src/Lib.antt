-- ===== src/Lib.antt =====
-- Verification of tpce2drv, the Linux driver of the TPCE data acquisition boards.
--
-- A board has three DMA channels behind an Altera PCIe core. User space maps buffers, asks for
-- transfers by ioctl, and either waits for one or reads a stream that interrupts keep counting.
--
-- The parts, and the files that model them:
--   linux/altera_pcie.h, the address translation table: PageTable and its children. Mask is about the
--     search for a free slot, Slots about the table as a map, Laws about allocation and release,
--     Find about the search for a page, Room about the free slots, Translate about addresses.
--   linux/dma_descriptors.c and .h: Descriptors. Params checks parameters, Fill makes the
--     descriptors of a transfer (Chunks, Ranges and Addresses follow its loops from the inner one
--     out, Count is about the plan, Control about the passes after the first and Control/Whole about
--     all of them), Memory checks descriptors from user space. Span says what it means that
--     descriptors move bytes.
--   linux/tpce.h and linux/tpce_public.h, the state: Types and Device.
--   linux/dma.c: Dma starts a transfer, Dma/Memory keeps the descriptor buffers, Dma/Stop stops
--     and completes, Dma/Translate is about translated addresses and the loop that makes them,
--     Dma/Start and Dma/StreamStart about a start as a whole. Dma/Registers states what the device
--     makes of its registers: an address is looked up in the values last written to those of its
--     page table. Buffers makes and releases mappings.
--   linux/request.c: Request runs a request, Request/Stream counts the users of a stream's state,
--     Request/Legacy holds the older read commands (Legacy/Ring, Legacy/Plans and Legacy/Delivered
--     follow the bytes that they bring), Request/Ioctl the commands and their dispatch.
--   linux/main.c: Interrupts, with Interrupts/Stream for the counting of a stream and
--     Interrupts/Completion for the way from an interrupt to the end of a transfer; Lifecycle with the
--     PCI resources, Lifecycle/Device with the start and the removal of a device, Lifecycle/Module
--     with loading and unloading; Request/Stream/Mmap with tpce_mmap. tpce_ioctl and tpce_release
--     stand in Request/Ioctl.
--   System: the interleaved steps of interrupts, tasklet, work and requests, on the functions above.
--     Device/Links names the links between channels and mappings that it keeps; Dma/Links,
--     Interrupts/Links, Request/Init and Request/Reset say what each function does to them.
-- Prelude holds numbers, lists and bits; a module Examples in each part evaluates the theorems at
-- concrete values, some of them on the device of Device/Sample.
--
-- How the code is modelled. A function of the source is a definition of the same name. State is
-- passed on explicitly: a device is the record Tpce, a pointer to dma_info[ch] is the number ch, a
-- pointer to a mapping is its id. Writes to registers of BAR 2 are logged in order. A negative error
-- number is the case failed of Result; the mark undefined stands for an access out of bounds or
-- through a null pointer. Unsigned integers are natural numbers with the wrap-around written out
-- where the source can reach it. What the kernel's functions and the registers give is an argument:
-- Env, AllocEnv, LockEnv, Got, Polls, CopyEnv, MmapEnv, PciEnv, InitEnv, DriverEnv. What other threads
-- do while a request waits is an arbitrary function in Env. The width of addresses is 64 bits, and
-- DEBUG is not set.
--
-- Bounds. The inner loop of fill_addresses runs at most as often as the buffer has entries left, and
-- gives no result when it would write past them. The loops over the table have 16 rounds, as in the source. Euclid's algorithm recurses on the
-- accessibility of its second argument. No other definition has fuel.
--
-- The removal and the start log what they acquire and release (Ledger); a resource is a name, not an
-- address. A step of System is a whole function, so locks show only in the order of steps. A request
-- on a mapping that already notes a channel is accepted by the source, but is no step of System.
-- In a full table pcie_page_alloc writes before the table, onto the head of dma_mappings. The model
-- keeps this as the flag out_of_bounds of PageTable, after which dma_mappings is unknown; a step that
-- sets it is no step of Reach. deliver of Request/Legacy/Delivered describes reads with both strides 1
-- and a channel that reads from memory, and no others.
--
-- Not modelled: the mutexes but for tpce_mmap's, wait queues, cache synchronisation, debug output, the
-- accesses to BAR 0 and to the configuration space (only which access is made), the sysfs attribute,
-- the tables of file operations and PCI ids, and the register masks that the driver does not use.
pub mod Prelude
pub mod Types
pub mod PageTable
pub mod Descriptors
pub mod Device
pub mod Dma
pub mod Request
pub mod Buffers
pub mod Interrupts
pub mod Ledger
pub mod Lifecycle
pub mod System
