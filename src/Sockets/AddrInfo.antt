-- ===== src/Sockets/AddrInfo.antt =====
-- 16.socket/01_getaddrinfo.c: what the program prints of the entries that getaddrinfo answers. The
-- numbers of families, types, protocols and flags are those of the headers of Linux.
pub mod ReadBack
mod Examples
use Prim.Native.Nat.{bit_and}
use Prim.Native.String.{String, ◌++◌}
use myapue.Base.{
  ℕ, ◌+◌, ◌*◌, ◌==◌, if◌then◌else◌, not, Bool, true, false, List, [], ◌∷◌, get_or, take, Option,
  none, some,
}
use myapue.Posix.{Status, nonneg, minus_one}

-- struct addrinfo; `addr` is the bytes that ai_addr points to, at least the 16 of a sockaddr_in.
pub record AddrInfo : Type 0 where
  pub flags : ℕ
  pub family : ℕ
  pub socktype : ℕ
  pub protocol : ℕ
  pub canonname : Option String
  pub addr : List ℕ

-- The names that the switches print.
pub family_name : ℕ → String
family_name n =
    if n == 2
    then "inet"
    else if n == 10
    then "inet6"
    else if n == 1
    then "unix"
    else if n == 0
    then "unspecified"
    else "unknown"

pub type_name : ℕ → String
type_name n =
    if n == 1
    then "stream"
    else if n == 2
    then "datagram"
    else if n == 5
    then "seqpacket"
    else if n == 3
    then "raw"
    else "unknown"

pub protocol_name : ℕ → String
protocol_name n =
    if n == 0
    then "default"
    else if n == 6
    then "TCP"
    else if n == 17
    then "UDP"
    else if n == 255
    then "raw"
    else "unknown"

pub print_family : AddrInfo → String
unfolding family_name
print_family ai = "family:" ++ family_name ai.family ++ "\n"

pub print_type : AddrInfo → String
unfolding type_name
print_type ai = "type:" ++ type_name ai.socktype ++ "\n"

pub print_protocal : AddrInfo → String
unfolding protocol_name
print_protocal ai = "protocal:" ++ protocol_name ai.protocol ++ "\n"

-- Which of the flags that the program knows are set.
pub record Flags : Type 0 where
  pub passive : Bool
  pub canonname : Bool
  pub numerichost : Bool
  pub numericserv : Bool
  pub addrconfig : Bool
  pub v4mapped : Bool
  pub all : Bool

-- flags & bit
pub has : ℕ → ℕ → Bool
has flags bit = not (bit_and flags bit == 0)

pub flags_of : ℕ → Flags
unfolding has
flags_of flags = record {
  passive = has flags 1;
  canonname = has flags 2;
  numerichost = has flags 4;
  numericserv = has flags 1024;
  addrconfig = has flags 32;
  v4mapped = has flags 8;
  all = has flags 16;
}

abbrev pub word_if : Bool → String → String
word_if true word = word
word_if false word = ""

-- What the ifs print.
pub words : Flags → String
words f =
    word_if f.passive "passive"
    ++ word_if f.canonname "canonical name"
    ++ word_if f.numerichost "numeric host"
    ++ word_if f.numericserv "numeric service"
    ++ word_if f.addrconfig "config"
    ++ word_if f.v4mapped "v4mapped"
    ++ word_if f.all "all"

pub flags_line : ℕ → String
unfolding words flags_of
flags_line n = if n == 0 then "flasg:0\n" else "flasg:" ++ words (flags_of n) ++ "\n"

pub print_flags : AddrInfo → String
unfolding flags_line
print_flags ai = flags_line ai.flags

abbrev pub or_else : Option String → String → String
or_else (some s) other = s
or_else none other = other

-- sin_addr and sin_port, where a sockaddr_in has them.
abbrev pub sin_addr : List ℕ → List ℕ
sin_addr addr = get_or addr 4 0 ∷ get_or addr 5 0 ∷ get_or addr 6 0 ∷ get_or addr 7 0 ∷ []

abbrev pub sin_port : List ℕ → ℕ
sin_port addr = get_or addr 2 0 * 256 + get_or addr 3 0

-- `inet_ntop` and `decimal` stand for inet_ntop(AF_INET, ..) and the %d of printf.
module _ (inet_ntop : List ℕ → Option String) (decimal : ℕ → String) where
  abbrev pub print_address : Option String → String
  print_address (some addr) = "address:" ++ addr ++ "\n"
  print_address none = "inet_ntop"  -- by perror

  -- A round of the loop. The block behind the test of the family runs for every family.
  pub print_entry : AddrInfo → String
  unfolding print_flags print_family print_type print_protocal
  print_entry ai =
      print_flags ai
      ++ print_family ai
      ++ print_type ai
      ++ print_protocal ai
      ++ "host:"
      ++ or_else ai.canonname "canonical name NULL"
      ++ "\n"
      ++ print_address (inet_ntop (sin_addr ai.addr))
      ++ "port:"
      ++ decimal (sin_port ai.addr)
      ++ "\n"
      ++ "----------------------------\n"

  pub print_entries : List AddrInfo → String
  unfolding print_entry
  print_entries [] = ""
  print_entries (ai ∷ rest) = print_entry ai ++ print_entries rest

  -- What getaddrinfo has answered: the text of its error, or the list. main returns, behind what it
  -- has printed.
  pub report : Option String → List AddrInfo → Status × String
  unfolding print_entries
  report (some error) infos = (minus_one, "getaddrinfo error:" ++ error ++ "\n")
  report none infos = (nonneg 0, print_entries infos)

  -- `getaddrinfo node service` is its answer; no service is NULL.
  pub main :
      (String → Option String → Option String × List AddrInfo) → List String → Status × String
  unfolding report
  main getaddrinfo (program ∷ node ∷ []) =
      let answer = getaddrinfo node none in report answer.0 answer.1
  main getaddrinfo (program ∷ node ∷ service ∷ []) =
      let answer = getaddrinfo node (some service) in report answer.0 answer.1
  main getaddrinfo argv = (minus_one, "")
