-- ===== src/Sockets/SendFd.antt =====
-- 17.uds/06_sendfd_server.c and 17.uds/07_sendfd_client.c: passing a file's descriptor.
use Prim.Native.String.{String}
use myapue.Base.{
  ◌+◌, ℕ, suc, ◌==◌, if◌then◌else◌, ◌⊎◌, ◌≡◌, ◌≢◌, inl, ap, drop-suc, ◌∙◌, arith, List, [], ◌∷◌,
  length, get_or, drop, Option, none, some,
}
use myapue.Posix.{
  Os, Prog, Trace, Status, nonneg, minus_one, pure, ◌>>=◌, ◌>>◌, call, print, failed,
}
use myapue.Posix.{
  value, out_of, Call, Answer, Outcome, returns, exits, execs, faults, spins, in_bounds, fault,
  bind_post,
}
use myapue.Posix.Ledger.{open_fds, failures}

abbrev pub server_name : String
server_name = "liucong.sendfd.server"

abbrev pub af_unix : ℕ
af_unix = 1

abbrev pub sock_seqpacket : ℕ
sock_seqpacket = 5

abbrev pub maxline : ℕ
maxline = 4096

-- sizeof(struct cmsghdr), and how far into it CMSG_DATA points, on 64 bits
abbrev pub sizeof_cmsghdr : ℕ
sizeof_cmsghdr = 16

abbrev pub cmsg_data : ℕ
cmsg_data = 16

-- "liucong..."
abbrev pub file_content : List ℕ
file_content = 108 ∷ 105 ∷ 117 ∷ 99 ∷ 111 ∷ 110 ∷ 103 ∷ 46 ∷ 46 ∷ 46 ∷ []

module _ (os : Os) where
  -- perror and return -1
  pub stop : String → Prog Status
  stop message = do print os message; pure minus_one

  -- The server from lseek on: it shows the file and passes its descriptor.
  pub pass : ℕ → ℕ → Prog Status
  unfolding stop
  pass client_fd file_fd = do
    call os (Call.lseek file_fd 0)
    count ← call os (Call.read file_fd maxline)
    if failed count then stop "read" else do
      print os "bytes in file"
      in_bounds (value count) maxline
      print os "file content"
      n ← call os (Call.sendmsg client_fd file_fd)
      if failed n then stop "sendmsg" else do print os "bytes send"; pure (nonneg 0)

  -- *(int*)CMSG_DATA(&chdr) = file_fd: the last of the int's bytes lies this far into chdr.
  pub store_fd : Prog (Unit {0})
  store_fd = in_bounds (cmsg_data + 3) sizeof_cmsghdr

  -- The server from `open` on.
  pub fill : ℕ → Prog Status
  unfolding stop store_fd
  fill client_fd = do
    f ← call os (Call.open_file "sendfd_file")
    if failed f then stop "open" else do
      w ← call os (Call.write (value f) file_content)
      if failed w then stop "write" else do
        if value w == length file_content
            then (do store_fd; pass client_fd (value f))
            else stop "write"

  -- The server up to `accept`.
  pub accept_client : Prog Status
  unfolding stop
  accept_client = do
    a ← call os (Call.socket af_unix sock_seqpacket)
    if failed a then stop "socket" else do
      call os (Call.unlink server_name)
      b ← call os (Call.bind (value a) server_name)
      if failed b then stop "bind" else do
        l ← call os (Call.listen (value a) 3)
        if failed l then stop "listen" else do
          c ← call os (Call.accept (value a))
          if failed c then stop "accept" else pure (nonneg (value c))

  pub fill_for : Status → Prog Status
  fill_for minus_one = pure minus_one
  fill_for (nonneg client_fd) = fill client_fd

  pub server_main : Prog Status
  server_main = do c ← accept_client; fill_for c

  -- The client. It reads the descriptor behind its struct cmsghdr, too. After the read it tests `n` of recvmsg again, which is not negative.
  pub client_main : Prog Status
  unfolding stop
  client_main = do
    a ← call os (Call.socket af_unix sock_seqpacket)
    if failed a then stop "socket" else do
      c ← call os (Call.connect (value a) server_name)
      if failed c then stop "connect" else do
        n ← call os (Call.recvmsg (value a))
        print os "bytes recved"
        if failed n then stop "recvmsg" else do
          in_bounds (cmsg_data + 3) sizeof_cmsghdr
          print os "file_fd"
          call os (Call.lseek (get_or (out_of n) 0 0) 0)
          count ← call os (Call.read (get_or (out_of n) 0 0) maxline)
          print os "bytes in file"
          if failed count then fault else do
            in_bounds (value count) maxline
            print os "file content"
            call os (Call.fstat (get_or (out_of n) 0 0))
            print os "size of file"
            pure (nonneg 0)

-- What the latest read answered.
abbrev pub latest_read : Trace → Option Answer
latest_read [] = none
latest_read ((Call.read _ _, a) ∷ t) = some a
latest_read ((c, a) ∷ t) = latest_read t

-- How the client may end.
abbrev pub ClientEnds : Trace → Outcome Status → Trace → Type 0
ClientEnds t (returns minus_one) t' =
    (failures t' ≡ suc (failures t)) × (latest_read t' ≡ latest_read t)
ClientEnds t faults t' = (failures t' ≡ failures t) × (latest_read t' ≡ latest_read t)
ClientEnds t _ t' = ⊥

-- The client returns -1 if socket, connect or recvmsg failed, and else reads past the end of its
-- struct cmsghdr, which is undefined, before it reads the file.
pub sendfd_client-Ends :
    (os : Os) (t : Trace) → let run = client_main os t in ClientEnds t run.0 run.1
unfolding client_main
sendfd_client-Ends os t = ground arith

-- The answer to the latest write.
abbrev pub written : Trace → ℕ
written [] = 0
written ((Call.write _ _, a) ∷ t) = value a
written ((c, a) ∷ t) = written t

-- How often a descriptor was passed on.
abbrev pub passes : Trace → ℕ
passes [] = 0
passes ((Call.sendmsg _ _, a) ∷ t) = suc (passes t)
passes ((c, a) ∷ t) = passes t

-- How the server may end, with `more` descriptors open where it does not return.
abbrev pub EndsAfter : ℕ → ℕ → Trace → Outcome Status → Trace → Type 0
EndsAfter more errors t (returns minus_one) t' =
    (passes t' ≡ passes t)
    × ((failures t' ≡ suc errors) ⊎ ((failures t' ≡ errors) × (written t' ≢ length file_content)))
EndsAfter more errors t faults t' =
    (passes t' ≡ passes t)
    × (failures t' ≡ errors)
    × (written t' ≡ length file_content)
    × (drop more (open_fds t') ≡ open_fds t)
EndsAfter more errors t _ t' = ⊥

fill-Ends :
    (os : Os) (client : ℕ) (t : Trace)
    → let run = fill os client t in EndsAfter 1 (failures t) t run.0 run.1
unfolding fill store_fd
fill-Ends os client t = ground arith

abbrev pub Accepts : Trace → Outcome Status → Trace → Type 0
Accepts t (returns (nonneg client)) t' =
    (passes t' ≡ passes t) × (failures t' ≡ failures t) × (drop 2 (open_fds t') ≡ open_fds t)
Accepts t (returns minus_one) t' = (passes t' ≡ passes t) × (failures t' ≡ suc (failures t))
Accepts t _ t' = ⊥

accept_client-Accepts :
    (os : Os) (t : Trace) → let run = accept_client os t in Accepts t run.0 run.1
unfolding accept_client
accept_client-Accepts os t = ground arith

abbrev pub ServerEnds : Trace → Outcome Status → Trace → Type 0
ServerEnds t o t' = EndsAfter 3 (failures t) t o t'

ServerEnds-of_fill :
    (client : ℕ) (t u : Trace)
    → Accepts t (returns (nonneg client)) u
    → (o : Outcome Status) (v : Trace) → EndsAfter 1 (failures u) u o v
    → ServerEnds t o v
ServerEnds-of_fill client t u k (returns (nonneg n)) v h = h
ServerEnds-of_fill client t u k (returns minus_one) v h = ground arith
ServerEnds-of_fill client t u k faults v h =
    (h.0 ∙ k.0, h.1 ∙ k.1, h.2, drop-suc 2 (open_fds v) ∙ ap (drop 2) h.3 ∙ k.2)
ServerEnds-of_fill client t u k (exits _) v h = h
ServerEnds-of_fill client t u k (execs _) v h = h
ServerEnds-of_fill client t u k spins v h = h

-- The server never comes to pass a descriptor on, and never returns 0. It returns -1 after one failed
-- call, or after a short write with none; else, with no failed call and the whole content written,
-- and with the listening socket, the client and the file open, it writes the descriptor past the
-- end of its struct cmsghdr, which is undefined.
pub sendfd_server-Ends :
    (os : Os) (t : Trace) → let run = server_main os t in ServerEnds t run.0 run.1
unfolding server_main
sendfd_server-Ends os t =
    bind_post (Accepts t) (ServerEnds t) (fill_for os) filled (λ n u k. k) (λ c u k. k)
      (λ u k. absurd k) (λ u k. k) (accept_client os t) (accept_client-Accepts os t)
  where
    filled :
        (a : Status) (u : Trace)
        → Accepts t (returns a) u
        → let run = fill_for os a u in ServerEnds t run.0 run.1
    filled minus_one u k = unfold fill_for in (k.0, inl k.1)
    filled (nonneg client) u k =
        unfold fill_for in
        ServerEnds-of_fill client t u k (fill os client u).0 (fill os client u).1
          (fill-Ends os client u)
