-- ===== src/Lib.antt =====
-- Nachos for CSCI 402 (nachos-csci402/code): the parts of the kernel and of its networked server that
-- keep state, as functions on that state, and what they promise.
--
-- Prelude: native numbers, lists measured by them, C's integers, and the Boolean tests, shared by all.
--
-- Server (network/nettest.cc): the process that keeps locks, conditions and monitor variables for the
-- clients on other machines. A handler is an action on one record, Server, which holds the three
-- tables with their counts (serverLocks and so on), the two headers that the source passes by
-- reference (PacketHeader and MailHeader), the mail that left, and the locals of Server() that outlive
-- a round of its loop. An action ends as done, as halted (interrupt->Halt) or as crashed (a failed
-- ASSERT, an access outside of an array or through a pointer that leads to no object).
--   State: the tables, validateLockIndex and its like, sendMessageToClient, PostOffice::Send of
--   network/post.cc up to the network, and the small monad of the handlers.
--   Wire: the texts on the wire, sendToServer of userprog/lock_syscalls.cc and the reads of the loop.
--   Tables: the search of a table by name. Locks, Conditions, Monitors: the handlers, one each.
--   Dispatch: the start, one round of the loop for a packet, and a run over packets.
--   Replies, LockSpec, Updates, Acquire, Release, Creation, Destruction, Waiting, Rounds, Broadcast,
--   MonitorLaws, Numerals, Requests: proofs.
-- What the code leaves to chance is a parameter, Env: which machines run a Nachos, and what
-- uninitialised memory holds. The loop of Broadcast_server runs on as much fuel as threads wait, since
-- each round takes one of them.
--
-- Bitmap (userprog/bitmap.cc): a list of words; Mark, Clear and Test behind their assertions, Find,
-- NumClear and the constructor over any fresh memory. Bits has the bit operations bit by bit, Laws and
-- Access the single bits, View the list of all bits, Search what Find and NumClear promise.
--
-- Table (class Table of userprog/addrspace.cc): pointers in slots that a Bitmap gives out. A pointer is
-- a number, and 0 is null. The lock around its bitmap is left out: each operation is one step.
--
-- Filesys (filesys/): Directory is directory.cc, a table of entries whose names count in their first
-- nine bytes; Header is filehdr.cc, the sectors of a file, at most 30, taken from a Bitmap and given
-- back; System is filesys.cc, with the formatting constructor, Create, Open and Remove on a Disk: the
-- bitmap, the directory and the header of each sector; OpenFile is openfile.cc, reads and writes of any
-- part of a file over the sectors of synchdisk.cc and of machine/disk.cc, where a request and the wait
-- for its interrupt are one step. The printing functions are left out, and sizes and positions are not
-- negative.
--
-- Threads (threads/): Queue is list.cc, Semaphore, Lock and Condition are those of synch.cc.
-- Interrupts are off inside of each operation but the loop of Broadcast, so each is one step; for P it
-- is each pass through its test. In Semaphore.Steps these steps come in any order. Broadcast is its
-- tests, broadcast_starts, which are one step, and then its loop, Rounds: a relation, in which any
-- moves of other threads come between the calls of Signal, with no bound on either. Scheduler is
-- scheduler.cc with Fork, Yield, Sleep and Finish of thread.cc: the running thread, the statuses and
-- the ready list. Run goes up to the context switch. The loop of Sleep is on fuel, and Idle is its
-- parameter.
--
-- Vm: demand paged virtual memory with a software-loaded TLB.
--   Machine: Translate, ReadMem and WriteMem of machine/translate.cc, for a TLB and for a page table.
--   Paging: one record, Vm, for the globals of threads/system.h that the handler changes (the inverted
--   page table ipt, the bitmaps of the frames and of the swap file, the eviction queue, the process
--   table) with the memory and the TLB. A process is its spaceId, its page table and its executable;
--   files are sizes with the bytes behind each position, as the stubs of filesys/openfile.h have them.
--   Handler: handleMemoryFull, handleIPTMiss and HandlePageFault of userprog/exception.cc. Invariant is
--   what ties ipt, bitmap, page tables and TLB together; Evict, Fill, Enter and Fault keep it, Retry and
--   Swap say what the fault was good for.
--   Space: the page tables of userprog/addrspace.cc, what a context switch does to the TLB, and how the
--   pages of a stack or of a process are given back. Boot: the globals at the start.
-- The value of rand(), uninitialised memory and the executables are parameters; tlbCounter is taken not
-- to overflow.
--
-- Hardware: Interrupt is machine/interrupt.cc, simulated time and the pending interrupts. The handlers
-- of the devices are the parameter Devices, with the delayed load that CheckIfDue has the machine do
-- before them: they change a world of their own, and schedule further interrupts. The loops over
-- CheckIfDue are on fuel: one round more than there are pending interrupts is enough if handlers
-- schedule for the future only. OneTick goes up to its Yield. Disk is the latency of machine/disk.cc.
--   Mips is machine/mipssim.cc, with registers as their 32 bits: its own file has Mult, Decode the
--   decoding with the tables of mipssim.h, Step has OneInstruction over ReadMem and WriteMem, up to the
--   kernel's handler of a trap. Product, Keeps, Operations, Finish and Flow are proofs. A division that
--   overflows ends as a failed assertion does.
--
-- Not modelled: the context switch itself, the dispatch of system calls and their local tables, the
-- synchronised list, the mailboxes and the network below PostOffice::Send, the MIPS debugger, the
-- printing functions, the test programs and the older copies of files.
pub mod Prelude
pub mod Server
pub mod Bitmap
pub mod Table
pub mod Filesys
pub mod Threads
pub mod Vm
pub mod Hardware
