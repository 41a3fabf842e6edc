-- ===== src/PollMsg.antt =====
-- 17.uds/01_pollmsg.c: threads that pass the messages of queues on to sockets, and a loop that
-- reads the sockets. The constants MAXLINE and NUMBER_THREADS are 100 and 3.
pub mod Relay
pub mod Scan
pub mod Ends
mod Examples
use Prim.Native.String.{String}
use myapue.Base.{
  ℕ, zero, suc, ◌+◌, ◌==◌, ltb, if◌then◌else◌, Bool, true, false, List, [], ◌∷◌, take, drop, ◌++◌,
  get_or,
}
use myapue.Posix.{
  Os, Prog, Status, nonneg, minus_one, pure, ◌>>=◌, ◌>>◌, call, print, failed, spins, returns,
  in_bounds,
}
use myapue.Posix.{value, out_of, Call, Answer}

abbrev pub maxline : ℕ
maxline = 100

abbrev pub number_threads : ℕ
number_threads = 3

abbrev pub key : ℕ
key = 0x1234

-- What strlen and write see of a buffer: the bytes before the first 0.
abbrev pub until_zero : List ℕ → List ℕ
until_zero [] = []
until_zero (b ∷ bs) = if b == 0 then [] else b ∷ until_zero bs

-- struct epoll_event: the descriptor, and whether EPOLLIN is set.
abbrev pub EpollEvent : Type 0
EpollEvent = ℕ × Bool

abbrev pub no_event : EpollEvent
no_event = (0, false)

-- The events that epoll_wait stores, two numbers to an event.
abbrev pub events_of : List ℕ → List EpollEvent
events_of (fd ∷ readable ∷ out) = (fd, readable == 1) ∷ events_of out
events_of _ = []

module _ (os : Os) where
  -- The loop of thread_function, for a number of rounds.
  pub relay : ℕ → ℕ → ℕ → Prog (Unit {0})
  relay zero queue_id fd_to_write t = (spins, t)
  relay (suc rounds) queue_id fd_to_write t =
      (do
        r ← call os (Call.msgrcv queue_id maxline)
        if failed r then (do print os "msgrcv"; pure tt) else do
          in_bounds (value r) maxline
          w ← call os (Call.write fd_to_write (until_zero (take (value r) (out_of r))))
          if failed w then (do print os "write"; pure tt) else relay rounds queue_id fd_to_write)
        t

  pub thread_function : ℕ → ℕ → ℕ → Prog (Unit {0})
  unfolding relay
  thread_function rounds queue_id fd_to_write = do print os "id"; relay rounds queue_id fd_to_write

  -- One round of the first loop of main: a queue, a pair of sockets, and the thread that gets the
  -- queue and the second socket. Whether it went well.
  pub add_thread : ℕ → ℕ → Prog Bool
  add_thread epfd i = do
    q ← call os (Call.msgget (key + i))
    if failed q then (do print os "msgget"; pure false) else do
      s ← call os Call.socketpair
      if failed s then (do print os "socketpair"; pure false) else do
        call os (Call.epoll_ctl epfd (get_or (out_of s) 0 0))
        p ← call os Call.pthread_create
        if failed p then (do print os "pthread_create error"; pure false) else pure true

  -- The first loop of main, from i on for a number of rounds.
  pub add_threads : ℕ → ℕ → ℕ → Prog Bool
  unfolding add_thread
  add_threads epfd zero i t = pure true t
  add_threads epfd (suc rounds) i t =
      (do added ← add_thread epfd i; if added then add_threads epfd rounds (suc i) else pure false)
        t

  -- The for loop over the events, from i on, with fuel. The bound n is also the variable that takes
  -- the count of read, and each read is on the descriptor of the first event.
  pub scan : ℕ → ℕ → ℕ → List EpollEvent → Prog (Unit {0})
  scan zero i n events t = (spins, t)
  scan (suc fuel) i n events t =
      if ltb i n
      then (do
        in_bounds i number_threads
        if (get_or events i no_event).1
            then (do
              r ← call os (Call.read (get_or events 0 no_event).0 maxline)
              if failed r then (do print os "read"; pure tt) else (do
                in_bounds (value r) 4096
                print os "message read"
                scan fuel (suc i) (value r) events))
            else scan fuel (suc i) n events)
          t
      else (returns tt, t)

  -- The second loop of main, for a number of rounds, with the array of events as the rounds before
  -- left it.
  pub poll : ℕ → ℕ → List EpollEvent → Prog Status
  unfolding scan
  poll zero epfd events t = (spins, t)
  poll (suc rounds) epfd events t =
      (do
        e ← call os (Call.epoll_wait epfd number_threads)
        if failed e then (do print os "epoll_wait"; poll rounds epfd events) else (do
          let stored = take (value e) (events_of (out_of e)) ++ drop (value e) events
          print os "n"
          scan 4 0 (value e) stored
          poll rounds epfd stored))
        t

  -- `events` is what the array holds before the first epoll_wait.
  pub main : ℕ → List EpollEvent → Prog Status
  unfolding add_threads poll
  main rounds events = do
    e ← call os (Call.epoll_create number_threads)
    if failed e then (do print os "epoll_create"; pure minus_one) else do
      added ← add_threads (value e) number_threads 0
      if added then poll rounds (value e) events else pure minus_one
