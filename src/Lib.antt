-- ===== src/Lib.antt =====
-- sneks is a small operating system on an L4.X2 microkernel: a root task (root/), system servers
-- (sys/), a C library shared by them and by user programs (lib/), and the user runtime
-- (user/crt/). The servers talk to their clients by IPC through generated dispatchers; this
-- library models the code behind the dispatchers.
--
-- Base and its children hold what the other modules share: Boolean tests and the conditional, C
-- arrays as lists with native indices, machine words as native numbers read bit by bit (`&`,
-- `|`, `^`, `~`, ffs), byte tables, and signed integers.
--
-- * Radix64 is lib/a64l.c. `decode_byte`, `encode_byte`, `a64l` and `l64a` are the functions
--   of these names; the static buffer of l64a() is passed in and out. Both loops run six
--   rounds at most, so the recursion is on the rounds left. A `long` has 32 bits on the
--   target.
--
-- * Signal is root/sig.c, on the signal fields of `struct process` (root/defs.h):
--   `sig_deliver`, `sig_default` and `sig_send`. Signal.Sets is root_uapi_sigset(),
--   Signal.Suspend root_uapi_sigsuspend(), and Signal.Kill root_uapi_kill(). Calls that leave
--   the file are appended to a log; the answers of allocate_thread(), of L4_ThreadControl and
--   of the VM server are an argument. A failed assert, abort() and undefined shifts are the
--   result `abort`. The loop over unblocked signals has fuel 65, which is enough because each
--   round removes one of 64 bits. The 64-bit sets are numbers below 2 ^ 64.
--
-- * Rollback is lib/rollback.c: the handlers of one server thread, with the calls that it
--   makes of them as a list. `serve` is an operation that uses the handlers as
--   include/sneks/rollback.h asks, followed by the dispatcher's call of check_rollback();
--   callbacks are taken not to set handlers themselves.
--
-- * Cookie is lib/cookie.c. The keyed hash (ccan/siphash) is a parameter; clocks are numbers
--   below 2 ^ 64, and the theorems leave out the last period before a clock wraps.
--
-- * Descriptors is the descriptor table of sys/io/io.c and sys/io/private.h. An `Io` has the
--   descriptors by number, the clients by process ID and the files by number; a pointer to one
--   of them is its number, and a free descriptor has no owner. `fd_dtor`, `io_add_fd`,
--   `alloc_fd`, `fork_handle`, `get_fd_nosync`, `touch` (io_impl_touch), `late_close_fd` and
--   `client_dtor` are the functions of these names; `fork_round` is a round of the loop over
--   handles in fork_client(), and `shadow_round` one of its loop over the translation table of
--   the parent, both with `fork_number`. A failed assert is the result `none`. The numbers that ra_alloc() returns,
--   whether malloc() finds memory and what the close callback returns are arguments;
--   lifecycle_sync() is taken to have run. The loop of client_dtor() has as many rounds as the
--   client has handles, which is enough because each round takes one away. `Wf` is what
--   invariants() of the source says of handles and their arrays.
--
-- * Pipe is sys/pipe/pipeserv.c. The buffer is from elsewhere (ccan/membuf) and a parameter,
--   the record `Membuf` of its operations and of what they do to the elements; Pipe.Tests has
--   a concrete one. `pipe_write`, `pipe_read`, `pipe_confirm`, `pipe_close` are the functions
--   of these names for calls without a file position, `reader_status` and `writer_status` the
--   two halves of pipe_get_status(). `call` of Pipe.Fifo is a call with the confirmation that
--   sys/io/io.c makes of it when its reply arrives.
--
-- * Lifecycle is the queue of process lifecycle events in sys/io/io.c: lifecycle_handler_fn()
--   writes it in the message thread and lifecycle_sync() reads it in the dispatch thread. Both
--   are cut at their accesses of `lce_ctrl`: `handler_write` is the handler up to its loop,
--   `handler_commit` one round of the loop, `sync_read` the start of lifecycle_sync(), and
--   `sync_commit` one round of its last loop. `step` of Lifecycle.Steps does one piece of one
--   thread, and the theorems are about any list of pieces; the events that the dispatch thread
--   takes are collected in a list, since what it does with them is not modelled.
--   `lifecycle_handler_fn` is the handler without interruption, whose loop then takes two
--   rounds at most. The control word keeps the layout of the code: the write position in the
--   low ten bits, the read position in the next ten, then the overflow bit.
--
-- * Threads is the thread number allocator of root/uapi.c, with lib/pidof.c. L4 thread IDs
--   and ccan/bitmap are parameters, whose fields are what L4.X2 and the library document.
--   Numbers has `tno_free_maps` and `tno_free_counts`; `free_threadno`, `allocate_thread`,
--   `free_thread` and `tidlist_remove_from` are the functions of these names. A failed
--   assert is the result `abort` of Base.Ending.
--
-- * Processes is the process table of root/uapi.c: `get_process`, `zombify`, `uapi_exit`,
--   `uapi_wait`, `destroy_process`, `alloc_process`, `uapi_setresugid`, `uapi_getresugid`
--   and `uapi_prlimit`. Hash tables are lists in the order of iteration, `confirm` is the
--   pending confirmation of lib/rollback.c, and messages that leave the root task are a
--   list of events. The signal fields of a process are a state of Signal, and SIGCHLD to the
--   parent of a process that ends is Signal's `sig_send` on it; a failed assert of it ends
--   zombify() too. Whether a reply to a waiting thread succeeds is an argument.
--   alloc_process() makes 32767 rounds at most, as in the code.
--
-- * Sysmsg is sys/msg/sysmsg.c: `filter_inc`, `filter_dec`, `filter_query` and
--   `filter_pass` are the counting filters, Sysmsg.Clients has `setmask`, `add_filter`,
--   `rm_filter`, `impl_broadcast` and `recursive_sysmsg_call`. Clients are known by process
--   ID, the subscription table is a list, and the hash and the salts are parameters. Words
--   have 32 bits.
--
-- * Strtol is lib/strtol.c. A string is the list of its bytes without the final zero;
--   `Parsed` is what `strtoull_max` returns, where `*end` points and what becomes of errno.
--   The base is not negative, a long has 32 bits and a long long 64.
--
-- * Mutex is lib/mtx.c. `At` and `Serializer` say where a thread and the serializer are
--   between atomic operations, `take_step` makes the next one of them, and `interleave`
--   makes any sequence of them. The functions have the names of the source; `resume` is the
--   rest of mtx_lock() and `take_lock` the start of ser_lock_op(). From its load to its
--   reply ser_unlock_op() is one step, since only the serializer changes a word with
--   CONFLICT. A thread's ID is 64 times its number. IPC succeeds.
--
-- * Tss is lib/tss.c: `tss_create` and `tss_delete` on the array of destructors, `tss_get`
--   and `tss_set` on the table of one thread, with pointers as numbers and null as 0.
--   realloc() succeeds.
--
-- * Environ is lib/env.c, between two assignments of `environ` by the program, so that the
--   hash table is up to date. A string is its address with its bytes, the hash table a list
--   of entries in the order of their addition, and what malloc(), realloc() and
--   htable_add() answer is an argument. `setenv`, `unsetenv`, `putenv`, `clearenv` and
--   `getenv` are the functions of these names; reading a null pointer and a failed assert
--   are `abort`. Environ.Spec has the map from names to values.
--
-- * Vm is the lazy mappings of sys/vm/vm.c. A tree of lib/rbtree.c is a binary tree, and
--   its rebalancing a parameter that keeps the order; `find_lazy_mmap`, `first_lazy_mmap`,
--   `insert_lazy_mmap`, `munmap_space` and `reserve_mmap` are the functions of these names
--   on the mappings, without pages and the page cache. Mappings end below 2 ^ 32, so that
--   sums do not wrap; malloc() succeeds. A failed assert is `abort`.
--
-- Not modelled: the generated IPC stubs, libraries from elsewhere (CCAN, lib/dlmalloc.c,
-- lib/lz4.c, lib/rbtree.c), boot code, and the components that the other files do not name.
pub mod Base
pub mod Radix64
pub mod Signal
pub mod Strtol
pub mod Sysmsg
pub mod Threads
pub mod Tss
pub mod Vm
pub mod Lifecycle
pub mod Mutex
pub mod Descriptors
pub mod Environ
pub mod Rollback
pub mod Pipe
pub mod Processes
pub mod Cookie
