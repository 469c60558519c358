-- ===== src/Lib.antt =====
-- A model of the core of l4ertl, a POSIX real-time kernel in C for threads on one processor, and
-- what holds of it.
--
-- The program keeps the ready threads in a structure of 1024 queues with bitmaps, and the threads that
-- wait on a semaphore, a mutex or a condition variable in a list of that object. The calls of the
-- objects take threads out of the structure or put them into it, and then run the scheduler, which
-- takes the first thread of the highest priority. Both the structure and the lists are linked
-- through fields of the threads themselves.
--
-- Files, with what they model:
--   Bits            bits of natural numbers; no part of the program
--   Bitmap          include/ertl_core/bitmap.h
--   BitOp           include/ertl_core/bitop.h: _ffs, _fls
--   Chain           doubly linked chains as the program builds them, and lists as their meaning
--   Ready           include/ertl_core/sched_struct.h: the ready structure, meaning queues of threads
--   Flags           include/ertl_core/pthread.h: the macros on thread_flags
--   Kernel          include/ertl_core/types.h, server/core/port/errno.c: the state that calls share
--   Sched           server/core/port/sched.c: states, priorities, the choice of the next thread, times
--   ThreadList      include/ertl_core/pthread_list.h: the lists of waiting threads
--   Semaphore       server/core/port/semaphore.c
--   Signal, SigAction
--                   server/core/port/signal.c, include/ertl_core/signal.h
--   TimerHeap       server/core/port/heap.c
--   Ktimer, Time    server/core/port/time.c: the timers of the kernel, the calls on clocks and timers
--   Timed           the waits of semaphore.c and pthread.c with a bound on the time
--   Exit            server/core/port/pthread.c: the end of a thread
--   Join            server/core/port/pthread.c, sched.c: joining and deleting a thread
--   Deliver         server/core/port/signal.c: running the handlers
--   Irqs            server/core/port/irqs.c: the tables of handlers
--   Interrupt       server/core/common/irqs-l4.c: serving an interrupt
--   System          the threads together: their calls, the interrupts between them, and the switches
--   Memory, Strings server/core/libc/string.c
--   Convert         server/core/libc/stdlib.c, include/ertl_core/ctype.h
--   Format          server/core/libc/stdarg.c: numbers as strings
--   Calendar        server/core/libc/time.c, server/ulibc/time.c: dates and seconds
--   User            server/ulibc/pthread.c, sched.c, stdlib.c, libgen.c: attributes of threads and
--                   mutexes, the end of a program, the last part of a path
--   Files, Devices  server/core/port/fs.c, server/core/port/dev.c
--   Console         server/core/port/devcons.c, devtrace.c
--   Region          server/core/common/l4_sysmem.c: the allocator of memory regions
--   Wake, Mutex, Cond, Keys, Cleanup, Pthread
--                   server/core/port/pthread.c: mutexes, condition variables, thread-specific data,
--                   cleanup handlers, attributes of threads
--   Tests           concrete kernels at which the theorems are applied
--   Base            tests on numbers, maps and words
--
-- A pointer is a number and NULL is 0. The fields by which threads are linked stand in maps from
-- the thread's address, so that writing through one pointer is seen through all. An int or an
-- unsigned long is a number below 2 ^ 32, and its wrap-around is written out. Functions keep the
-- names of the source.
--
-- A call runs with interrupts off, but for the context switch in `scheduling`. So a call ends in an
-- Outcome: `done`, with what it returns and the kernel; or `away`, with the kernel as the processor
-- leaves the caller, and what the call does in the kernel in which the caller is switched back in.
-- Fuel bounds the walk to the tail of a queue, the loop that wakes all threads of a list, the rounds
-- of locking a mutex and of joining a thread, the search of the ready structure and the loops of the
-- heap of timers; where it runs out the outcome is `stuck` or `none`. Enough is the length of the queue
-- for the walk, one more than the length of the list for the waking, and the elements behind the
-- place, and one more, for sifting down; for the region allocator one more than the free blocks. The
-- loop over the expired timers has no bound, since a timer may expire again in it. A thread that waits
-- for a mutex or for the end of a thread takes one round each time it is switched back in, which no
-- number bounds.
--
-- System puts the calls of the threads together: a world is a kernel and, for each thread that has left
-- the processor in the middle of a call, what is left of that call. A step is a call of the thread that
-- runs, what is left of the one it is in, or an interrupt. The calls are those on semaphores, without
-- the timed one, and the yield.
--
-- The array of the heap of timers has HEAP_MAX_NELEM places, numbered from 0, while the elements are
-- numbered from 1; HEAP_insert may write behind it, on `nelem`, which the model does, too. A timer of
-- the kernel has its index and one more in place of its address, so `nelem` is then another number than in
-- the source, and what the heap holds after that is not that of the source. The other operations of the
-- heap are those of the source while `nelem` is below HEAP_MAX_NELEM.
--
-- The clocks are functions from the number of readings to the time. The functions on memory and
-- strings work on a map from addresses to bytes, apart from the state of the kernel; a loop to the end
-- of a string has fuel, of which one more than its length is enough. The table of files stands apart,
-- too: a driver is a record of functions on it, an argument of the calls. The handlers of signals and the
-- end of the whole program are arguments of the calls that use them.
--
-- Not modelled: the allocator tlsf.c, which is another project's; stacks and registers, and so the
-- creation of threads; the serial lines, reading the console and the events of the trace; the format
-- strings of printf and scanf; the calls of the user library that only trap into the core, and the code of
-- the microkernel and the processor. The routines that the
-- program calls back, as cleanup handlers and destructors, are part of the result of the call and do
-- not run here.
pub mod Timed
pub mod User
pub mod Calendar
pub mod Format
pub mod System
pub mod Interrupt
pub mod Console
pub mod Join
pub mod Exit
pub mod Deliver
pub mod Irqs
pub mod Region
pub mod Devices
pub mod Files
pub mod Convert
pub mod Memory
pub mod Strings
pub mod Base
pub mod Bits
pub mod Bitmap
pub mod BitOp
pub mod Chain
pub mod Ready
pub mod Flags
pub mod Kernel
pub mod Sched
pub mod ThreadList
pub mod Semaphore
pub mod Wake
pub mod Mutex
pub mod Keys
pub mod Cleanup
pub mod Cond
pub mod Signal
pub mod Pthread
pub mod TimerHeap
pub mod Ktimer
pub mod Time
pub mod SigAction
pub mod Tests
