-- ===== src/Lib.antt =====
-- Nachos 4.0 as extended in this repository: an instructional operating system that runs user
-- programs on a simulated MIPS machine. The development is about the code of the second project,
-- project2/source/NachOS-4.0/code, which holds what the first project (project1_systemcall) has
-- and adds processes, semaphores and multiprogramming.
--
-- A user program runs on the machine of machine/: every load and store goes through
-- Machine::ReadMem or Machine::WriteMem, which translate the address by the page table of the
-- process, and a refused access raises an exception. Exceptions and system calls end in
-- userprog/exception.cc, which halts the machine or calls one of the bodies of
-- userprog/ksyscall.h. These work on the console (userprog/synchconsole.cc), on the table of the
-- semaphores that user programs name (threads/stable.cc over threads/synch.cc), and on the table
-- of the processes (threads/ptable.cc, threads/pcb.cc) with their files (threads/ftable.cc). The
-- tables and the memory take their free slots and frames from bitmaps (lib/bitmap.cc).
--
-- State is passed explicitly: an operation takes the state of its object and gives the state
-- after it with its result, in the type Outcome of Base/Results, whose errors say how the code
-- ends instead: an ASSERT fails, the machine halts, the behaviour is undefined, or the thread
-- sleeps for good. A record has a field for each field of the class that it models, in the code's
-- words. A pointer that may be NULL is an Option, and a char or a cell of the memory is its byte.
-- An `int` is an exact integer with the test for its overflow written out where the code can
-- overflow, an `unsigned int` is its 32 bits as a number (Base/Int). An address of the simulated
-- machine is its 32 bits as a number.
--
-- A call that can sleep in Semaphore::P is cut at that point: one definition runs up to the sleep
-- and a second one from there on, and an order of events is a sequence of such pieces, chosen by
-- a step relation in Threads. A thread goes by a number, which for a process is the number of the
-- process. Address spaces are loaded from a file whose contents are a parameter: what the host
-- system delivers for a position and a count, with the one assumption that it is not more than
-- the count. Likewise the calls of the host for the files of a process are a parameter, a record
-- of functions on the state of the host.
--
-- Bounds and fuel: every loop is a recursion on the number of its rounds, as the code counts them
-- (the bits of a bitmap, the slots of a table, the bytes of an access, the keys that the console
-- will still deliver). The loop of SysPrintNum runs while its number is not 0; its model counts
-- the cells that are left in the buffer, which has ten, as many as an int has digits.
--
-- Not modelled: the simulation of the devices and of time (machine/console.cc, machine/disk.cc,
-- machine/network.cc, machine/timer.cc, machine/stats.cc), the calls of the host system
-- (lib/sysdep.cc), DEBUG output, the destructors where they only free memory, the start of the
-- kernel (threads/kernel.cc, threads/main.cc), the switch of threads, the status of a thread and
-- the interrupts, which the pieces between two sleeps abstract from, the file system on the
-- simulated disk, which FILESYS_STUB leaves out, the network, the tests under test/ and the cross
-- compiler under usr/.
--
-- Files (paths of the code are below project2/source/NachOS-4.0/code):
-- - Base: shared names: Base/Tests (Boolean tests), Base/Lists (arrays), Base/Int (the types int
--   and unsigned int), Base/Results (how code ends), Base/Names (C strings).
-- - Bitmap: lib/bitmap.h and lib/bitmap.cc; Bitmap/Bits is about bit masks as numbers,
--   Bitmap/View reads a bitmap as a set of numbers, Bitmap/Laws is about Test, Mark and Clear,
--   Bitmap/Loops about the constructor, FindAndSet and NumClear, Bitmap/Count counts bits that
--   are off, Bitmap/SelfTest about SelfTest.
-- - Threads: Threads/Semaphore is the class Semaphore of threads/synch.cc, as far as one thread
--   runs it without letting go of the CPU, with the list operations that it calls.
--   Threads/Schedule says in which orders threads can run P and V of one semaphore, with the
--   ready list of threads/scheduler.cc; Threads/Wakeups follows the values and the threads
--   through them, and Threads/Progress runs the ready list. Threads/Lock is the class Lock with
--   the orders in which threads can use it, and Threads/Exclusion is about who is inside.
-- - STable: threads/stable.cc and threads/sem.h; STable/Slots searches the slots by name,
--   STable/Invariant ties the bitmap to the slots, STable/Laws is about Create and
--   STable/Blocking about Wait and Signal.
-- - Syscall: userprog/ksyscall.h; Syscall/Console is the console calls, with
--   Syscall/Console/Digits on the digits of a number and Syscall/Console/RoundTrip on printing
--   and reading; Syscall/Strings is System2User and User2System, with Syscall/Strings/FromUser on
--   what is read.
-- - AddrSpace: userprog/addrspace.cc and userprog/noff.h; AddrSpace/Bytes is about bytes put into
--   the memory, AddrSpace/Alloc about the frames of a program, AddrSpace/Copy about the pages of
--   a segment, AddrSpace/Segments about whole segments, AddrSpace/EmptyReadonly about programs
--   without read-only data, AddrSpace/Load about Load as a whole; AddrSpace/Run models what is
--   done about a program that runs, and AddrSpace/Registers is about InitRegisters.
-- - PTable: threads/ptable.cc and threads/pcb.cc (PTable/Block); PTable/Invariant ties the bitmap
--   to the control blocks, PTable/Exec is about ExecUpdate, PTable/Family follows Join and Exit
--   step by step, PTable/Orphans is about the table after an exit, PTable/Handshake about Join
--   and Exit together, PTable/Refusals about the calls that fail.
-- - FTable: threads/ftable.cc and the OpenFile of filesys/openfile.cc; FTable/Transfer models
--   Read, Write and Append, FTable/Reading is about reading a file, FTable/Laws about Open and
--   Close and about the file number behind the last.
-- - Machine: machine/machine.h, machine/translate.h and machine/translate.cc; Machine/Translate
--   is about address translation, Machine/Memory models ReadMem, WriteMem and the exceptions,
--   Machine/Memory/Bytes is about words in memory and Machine/Memory/Access about reading and
--   writing.
-- - Cpu: machine/mipssim.h and machine/mipssim.cc: the 32-bit arithmetic of the registers;
--   Cpu/OpCode has the operations and the tables that decode them, Cpu/Decode is
--   Instruction::Decode, Cpu/Mult the function Mult, Cpu/Effects what the instructions do kind by
--   kind and Cpu/Execute the switch of OneInstruction with the loop of Run. Cpu/Words, Cpu/Bounds
--   and Cpu/Fields are about the values that are computed, Cpu/Masks and Cpu/Halves about masks
--   and shifts on whole words, Cpu/Mult/Exact and Cpu/Mult/Signed about products, Cpu/Overflow,
--   Cpu/Division and Cpu/Shifts about the instructions of their names, Cpu/Unaligned about what
--   LWL, LWR, SWL and SWR merge, Cpu/Encode about layouts of instruction words; Cpu/User says
--   what holds of the machine while a program runs, Cpu/Access, Cpu/Registers, Cpu/Safe,
--   Cpu/Parts and Cpu/Safety take the switch case by case, Cpu/Held is about words of the memory
--   at mapped addresses, Cpu/PartWord and Cpu/Ending about one unaligned access and the load it
--   leaves pending, Cpu/Straddle about the accesses in pairs, and Cpu/Isolation is about whole
--   instructions and runs.
-- - LinkedList: lib/list.h and lib/list.cc over a heap of list elements: List here, SortedList in
--   LinkedList/Sorted. LinkedList/Chain says which sequence a heap holds; LinkedList/Ends is
--   about Append and IsInList, LinkedList/Front about Prepend and RemoveFront, LinkedList/Middle
--   and LinkedList/Removal about Remove, LinkedList/Sorted/Insertion about Insert and
--   LinkedList/Sanity about SanityCheck.
mod Base
pub mod Bitmap
pub mod Syscall
pub mod Threads
pub mod STable
pub mod Machine
pub mod Cpu
pub mod LinkedList
pub mod AddrSpace
pub mod PTable
pub mod FTable
