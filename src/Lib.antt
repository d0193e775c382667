-- ===== src/Lib.antt =====
-- Verification library of the coursework programs in C.
--
-- The game of 2023_1st/CSE3013/Week_10/Assignment (tetris.c, tetris.h). `Tetris.Blocks` is the
-- table of shapes. `Tetris.Field` has CheckToMove, AddBlockToField and DeleteLine as
-- check_to_move, add_block_to_field and delete_line; a field is a list of rows, coordinates are
-- signed, and what C reads outside the array is the parameter `outside`, which is arbitrary.
-- `Tetris.Recommend` is modified_recommend with the globals that it sets, `Tetris.Game` the
-- globals with InitTetris, GetCommand, ProcessCommand, BlockDown and AutoDown, and `Tetris.Rank`
-- the ranking. The children of each module prove what it does: `Field.Delete`, `Field.Check`,
-- `Field.Add` and `Field.Score`; `Recommend.Landing`, `Recommend.Best` and `Recommend.Chosen`;
-- `Game.Inv` and `Game.Turns`; `Rank.Laws`.
--
-- The stock server of 2024_1st/CSE4100/Project_03/task_2 (stockserver.c). `Stock` has the tree
-- with find_node, add_tree, show_tree, read_stock and write_stock; `Stock.Order` relates it to a
-- list, `Stock.Restart` is about the file and `Stock.Count` about a change of a count.
-- `Stock.Server` is stock_server with its commands, and `Stock.Server.Orders` its theorems; a
-- thread runs it for one client, with commands that exclude one another by the locks of
-- `Stock.Locks`, whose steps are one statement of one thread. `Stock.Buffer` is the buffer through
-- which main hands the connections to the threads. What sscanf stores is the parameter `scan`, how
-- much sprintf makes of a stock `line_size`; where temp or buf is too small the model has no
-- result. `Stock.Server.Room` is about buf. A count is an int that wraps at 32 bits; `front` and
-- `rear` of the buffer have no step past the range of int.
--
-- The scheduler of 2024_2nd/CSE4070/Project_04 (threads/thread.c, devices/timer.c, and what they
-- call of threads/interrupt.c and lib/kernel/list.c), where thread_mlfqs is false. `Kernel` has
-- the threads as a function of their pointers, the ready and the sleep list and one function per
-- operation; an ASSERT that fails is none. `Kernel.Queue` is about lists in the order of the
-- priorities, `Kernel.Inv` has what holds between the operations, `Kernel.Aging` is about
-- update_aging and `Kernel.Wake` about the sleep list; `Kernel.Steps` puts the operations together
-- in any order, and `Kernel.Choice` is about which thread runs. `Kernel.Semaphore` is
-- threads/synch.c up to sema_up, `Kernel.Semaphore.Wakeup` what sema_up does. `Kernel.Lock` has
-- the locks of the same file, as steps between which other threads run; `Kernel.Lock.Value`,
-- `Kernel.Lock.Moves` and `Kernel.Lock.Holder` are about them.
--
-- `Files` is the table of descriptors of the same kernel's userprog/syscall.c: open, close and the
-- loop of exit, for the file that the file system returned. `Files.Table` has the theorems.
--
-- The sorts of 2022_2nd/CSE3081/Project_02.c. `Sorts` has the four of them with their loops and
-- the branch of main that chooses one; an array is a list, an int an integer. `Sorts.Rearranged`
-- is about arrays that hold the same items, `Sorts.Quick`, `Sorts.Merge`, `Sorts.MergeSort`,
-- `Sorts.Insertion` and `Sorts.Custom` about one sort each, and `Sorts.Main` about main's choice.
--
-- The allocator of 2024_1st/CSE4100/Project_04 (mm.c). `Malloc` has the macros, the two globals,
-- and mm_init, mm_malloc, mm_free, extend_heap, coalesce, place and find_fit; `Malloc.Realloc` has
-- mm_realloc. Memory is a function from the addresses of its words. memlib is not part of the
-- repository: `mem_sbrk` is a parameter, and `Malloc.Extend.Sbrk` what the theorems rely on, that
-- the bytes begin where the heap ended and that the heap stays below 2 ^ 32 bytes; memmove is a
-- parameter too. `Malloc.Blocks` has the invariant of the heap seen from one place in it,
-- `Malloc.Well` that of the whole heap, `Malloc.Write` what a write of a block does.
-- `Malloc.Around`, `Malloc.Coalesce`, `Malloc.Join` and `Malloc.Free` are about coalesce and
-- mm_free, `Malloc.Split`, `Malloc.Place` and `Malloc.Take` about place, `Malloc.Search` and
-- `Malloc.Fit` about find_fit, `Malloc.Extend` and `Malloc.Init` about the growth of the heap, and
-- `Malloc.Calls`, `Malloc.Keeps` and `Malloc.Given` about mm_malloc.
--
-- The string searches of 2022_2nd/CSE3080/Assignment/Assignment_04.c. `Strings` has nfind and KMP
-- with the numbers that they print; `failure` is a table whose items are one more than in C, so
-- that its -1 is 0. `Strings.Borders` is about what a pattern has in common with its own
-- beginning, `Strings.Failure` about the table, `Strings.Rounds` and `Strings.Scan` about the
-- search with it, `Strings.Naive` about nfind.
--
-- The search tree of 2022_2nd/CSE3080/Project/Project_02.c. `Postorder` has preorder,
-- modifiedsearch, insert and postorder_tree, a pointer into the tree being the way from its root;
-- `Postorder.Insert`, `Postorder.Parts` and `Postorder.Rebuild` are about what they build.
--
-- The search tree of 2022_2nd/CSE3080/Assignment/Assignment_05.c. `Searching` has inorder,
-- preorder, modifiedsearch, insert and the loop of main, in the same way; `Searching.Insert` and
-- `Searching.Inorder` are about what insert does.
--
-- The stack on which a program of the kernel above starts, in userprog/process.c. `Arguments` has
-- make_stack with the calls of strtok_r (lib/string.c), on a memory of bytes; `Arguments.Image` is
-- about what stands below an address, `Arguments.Layout` about the stack for a list of arguments
-- and `Arguments.Words` about the words of the command line.
--
-- The system calls of the same kernel, in userprog/syscall.c. `Syscalls` has exec, wait, write,
-- read, create, remove, open_fd, close_fd, filesize, seek, tell, exit and check_addr as the
-- running process sees them, and `Syscalls.Dispatch` syscall_handler; `Syscalls.System` is what
-- they call of the file system, the console, the processes and the memory, an arbitrary state with
-- operations on it, of which those that touch the memory of the user may end in a page fault.
-- `Syscalls.Settled`, `Syscalls.Calls` and `Syscalls.Balanced` are about file_lock and the
-- descriptors, `Syscalls.Guard` about the stack of the user, `Syscalls.Fibonacci` about fibonacci.
--
-- Fuel: quick_sort, merge_sort and custom_sort recurse at most as deep as the list is long, which
-- is their fuel. The loops of find_fit pass a block each round, of 16 bytes at least, so the end
-- of the heap, in bytes, is enough. The loops of `Files` and `Syscalls` run on the rounds left, as
-- in the source; fibonacci has as many calls as `System` says that the stack of the kernel has
-- room for. The loop of fall makes its index less each round, that of scan takes at most two
-- rounds a character, windows one a start; postorder_tree recurses on shorter lists and the loop
-- of tokens on shorter strings. The loop of delete_line takes at most two rounds a row and one
-- more, and is given 2 * HEIGHT + 1; the loop that lands a shape takes at most one round a row and
-- one more. The theorems on both are equations or total statements, so the fuel suffices.
--
-- Not modelled: createRankList and writeRankFile of the game; the ASSERTs of thread_current; what
-- mm_realloc's branches that move a block or grow the heap leave of the invariant, which the
-- growth does not keep; the files and the clock of the sorts; drawing, the alarm
-- clock, the reading of the clock in modified_recommend, and recommend, which nothing calls; the
-- sockets, the signal handler and main of the server; of the kernel thread_create, the counts of
-- ticks for the statistics, the feedback queue, stacks, pages and switch_threads, and condition
-- variables; the page faults, the loading of programs and the list of the children; an interrupt
-- of a system call by another thread, which `Syscalls` leaves to `Kernel.Lock`. A score is C's int
-- as a bit pattern, modulo 2 ^ 32. The other parts of the repository are other programs.
--
-- `Shared` has the lists, tests and integers over the native numbers.
pub mod Shared
pub mod Tetris
pub mod Stock
pub mod Kernel
pub mod Files
pub mod Sorts
pub mod Malloc
pub mod Strings
pub mod Postorder
pub mod Arguments
pub mod Syscalls
pub mod Searching
