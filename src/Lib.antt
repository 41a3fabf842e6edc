-- ===== src/Lib.antt =====
-- myapue: exercise programs in C on the interfaces of UNIX, one folder to a chapter.
--
-- The programs are independent of one another. Those that compute are modelled as functions;
-- those that call the system are programs in a monad (Posix), whose parameter `os` stands for the
-- kernel and the C library: it answers each call as a function of the calls made before, so a
-- theorem holds whatever the answers are. Hypotheses on `os` are written out in each theorem.
--
-- Base: tests on numbers, lists with native lengths, counting.
-- Posix: calls, answers, outcomes and the monad. Posix.Ledger reads off a trace which descriptors
--   it leaves open, how many calls have failed, and what was received.
-- Handshake: the parent and the child of 14.advio/02_deadlock.c, 14.advio/04_mandatory.c and
--   10.signals/14_tell_wait.c from fork on, as lists of actions that are taken in any order; Counts is what is left of them.
-- MapCopy: the copy through mapped windows of 14.advio/07_mmap_io.c.
-- Nice: the threads of 08.proccontrol/11_nice.c; Stops says when they stop.
-- Popen: my_popen and my_pclose of 15.ipc1/04_popen.c.
-- PollMsg: the threads and the loop on epoll of 17.uds/01_pollmsg.c.
-- MergeSort: thread_function, merge and main of 11.threads/09_barrier.c, on top of HeapSort: Parts is
--   what the threads leave, Select and Merge what the two loops of merge do.
-- HeapSort: heap_sort, build_heap and node_adjust_down of 11.threads/09_barrier.c.
-- Sockets.AddrInfo: what 16.socket/01_getaddrinfo.c prints; ReadBack reads the names of its flags back.
-- Sockets.InitServer: 16.socket/03_initserver.c. Sockets.Retry: 16.socket/02_connect_retry1.c.
-- Sockets.TimeClient, Sockets.TimeServer: 16.socket/04_timeclient.c, 16.socket/05_timeserver1.c.
-- Sockets.UniqueServer, Sockets.UniqueClient: 17.uds/04_uniquecon_server.c and
--   17.uds/05_uniquecon_client.c. Sockets.SendFd: 17.uds/06_sendfd_server.c and
--   17.uds/07_sendfd_client.c.
-- Transfer: readn and writen of 14.advio/06_readn.c, with fuel one above the count.
-- Copy: the copying loops of 03.fileio/03_mycat.c, 10.signals/18_sigtstp.c and 01.intro/02_mycat.c.
-- Daemon: daemonize and already_running of 13.deamons/01_daemonize.c. Daemon.Table reads the
--   descriptor table off a trace; Daemon.Reread is daemonize and thread_function of
--   13.deamons/02_reread1.c, Daemon.Handlers daemonize and the handlers of 13.deamons/03_reread2.c.
-- AsyncCopy: the copy through asynchronous requests of 14.advio/05_rot13.c. AsyncCopy.Ledger reads
--   off a trace what was requested of a block, AsyncCopy.Moves is what each step adds to that;
--   AsyncCopy.Blocks and AsyncCopy.Directed are about the descriptors and counts of the requests.
-- Environ: getenv, getenv_r and getenv of 12.threadcontrol/02_getenv1.c, 03_getenv2.c and 04_getenv3.c, on
--   an environment that is a list of strings; Environ.Buffer has strncpy, strcpy and the strings in
--   buffers, Environ.Entry the loop over the entries.
-- FileTree: myftw, dopath and myfunc of 04.filedir/07_ftw.c, by recursion on the tree of files.
--   FileTree.Visits says which calls of myfunc a walk makes, FileTree.Counters counts them;
--   FileTree.Program is path_alloc and main.
-- TellWait: the parent and the child of 15.ipc1/03_tellwait.c as a step relation.
-- Threads.FooHash: foo_alloc, foo_find_and_hold and foo_release of 11.threads/05_mutex.c on a store
--   of objects at addresses; its children say which lists of entries the chains stand for.
-- Threads.JobQueue: the queue of 11.threads/08_rwlock.c on the same kind of store; its children say
--   which list of jobs the links stand for. Threads.Runs is the monad of both.
-- Threads.Quit: main and the thread for signals of 12.threadcontrol/05_suspend.c as a step relation.
-- Threads.Messages: the threads of 11.threads/06_condition_variables.c as a step relation, with any
--   number of consumers; Invariant and Progress say what holds of every interleaving.
-- Signals.Jump: the handlers and the jump of 10.signals/10_mask.c and 11_mask.c as a step relation.
-- Signals.Suspend: main and sig_int of 10.signals/12_suspend1.c as a step relation.
-- Signals.State: the dispositions and the mask that a trace leaves. Signals.System: system of
--   10.signals/16_system.c, with main and the handler in Program. Signals.Sleep: 10.signals/17_sleep.c. Signals.Abort:
--   10.signals/15_abort.c.
--
-- Bounds and fuel. The rounds of an endless loop, and of the loops on
-- waitpid in system and sig_child, are a parameter, and `spins` says that they are
-- used up; other loops have a fuel that the theorems show to be enough: 9 rounds for the doubling
-- of connet_retry, one more than the count for readn and writen, one more than the length for
-- node_adjust_down, one more than the windows for the copy of 07_mmap_io.c, four for the three events
-- of 01_pollmsg.c. Numbers are natural; where the C code subtracts on a size_t, the wrap is written
-- out (Transfer.sub_size).
--
-- Not modelled: what the calls do inside the kernel and the C library, which is the parameter `os`
-- (sprintf among them), and the programs that make single calls or only print, in most of 01.intro and 03.fileio, 05.stdio,
-- 06.sysdatafiles, 07.proenviron, 09.procrelation and most of 08.proccontrol, 15.ipc1,
-- 04.filedir, 10.signals and 12.threadcontrol, and 01_nonblockwrite.c and
-- 03_lockfile.c of 14.advio. The calls that the programs of Handshake make before
-- fork are not modelled, nor is the handler of 18_sigtstp.c. Except in
-- Signals, Threads.Quit and TellWait, a signal that ends a process at a moment at which it does not
-- wait for one is not modelled.
pub mod AsyncCopy
pub mod Base
pub mod Copy
pub mod Daemon
pub mod Environ
pub mod FileTree
pub mod Handshake
pub mod HeapSort
pub mod MapCopy
pub mod MergeSort
pub mod Nice
pub mod PollMsg
pub mod Popen
pub mod Posix
pub mod Signals
pub mod Sockets
pub mod TellWait
pub mod Threads
pub mod Transfer
