-- ===== src/Sockets/AddrInfo/Examples.antt =====
-- What is printed of an entry for IPv6.
use Prim.Native.String.{String, ◌++◌}
use myapue.Base.{
  true, false, ℕ, ◌≡◌, refl, List, [], ◌∷◌, ◌==◌, equal, if◌then◌else◌, Option, none, some,
}
use myapue.Sockets.AddrInfo.{
  AddrInfo, Flags, flags_line, print_flags, words, flags_of, has, print_entry, family_name,
  type_name, protocol_name, print_family, print_type, print_protocal,
}
use myapue.Sockets.AddrInfo.ReadBack.{read_flags, with_flags, read_flags-print_flags}

-- ::1 at port 80, with AI_CANONNAME and AI_ADDRCONFIG
abbrev loopback : AddrInfo
loopback = record {
  flags = 34;
  family = 10;
  socktype = 1;
  protocol = 6;
  canonname = none;
  addr =
      10 ∷ 0 ∷ 0 ∷ 80 ∷ 0 ∷ 0 ∷ 0 ∷ 0 ∷ 0 ∷ 0 ∷ 0 ∷ 0 ∷ 0 ∷ 0 ∷ 0 ∷ 0 ∷ 0 ∷ 0 ∷ 0 ∷ 0 ∷ 0 ∷ 0 ∷ 0
      ∷ 1 ∷ [];
}

abbrev ntop : List ℕ → Option String
ntop a = if equal a (0 ∷ 0 ∷ 0 ∷ 0 ∷ []) then some "0.0.0.0" else none

-- The address is printed as one of IPv4, out of what is no address in this entry.
loopback_text :
    print_entry ntop (λ n. if n == 80 then "80" else "?") loopback
    ≡ "flasg:canonical nameconfig\nfamily:inet6\ntype:stream\nprotocal:TCP\n"
      ++ "host:canonical name NULL\naddress:0.0.0.0\nport:80\n----------------------------\n"
unfolding print_entry print_flags flags_line words flags_of has family_name type_name protocol_name
    print_family print_type print_protocal
loopback_text = refl

-- AI_CANONNAME and AI_ADDRCONFIG
abbrev two_flags : Flags
two_flags = record {
  passive = false;
  canonname = true;
  numerichost = false;
  numericserv = false;
  addrconfig = true;
  v4mapped = false;
  all = false;
}

read_flags-print_flags_example :
    read_flags (print_flags (with_flags loopback two_flags)) ≡ two_flags
read_flags-print_flags_example = read_flags-print_flags loopback two_flags
