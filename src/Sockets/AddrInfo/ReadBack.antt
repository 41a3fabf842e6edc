-- ===== src/Sockets/AddrInfo/ReadBack.antt =====
-- The flags can be read back from what print_flags prints, though nothing stands between the names.
use Prim.Native.Nat.{Ordering}
use Prim.Native.String.{String, len, compare, slice}
use myapue.Base.{ℕ, ◌+◌, arith, ◌≡◌, refl, if◌then◌else◌, Bool, true, false, ◌&&◌, not}
use myapue.Sockets.AddrInfo.{flags_line, AddrInfo, Flags, flags_of, words, print_flags, has}

abbrev pub is_same : Ordering → Bool
is_same Ordering.eq = true
is_same _ = false

abbrev pub begins : String → String → Bool
begins text word = is_same (compare (slice text 0 (len word)) word)

abbrev pub after : String → String → String
after text word = if begins text word then slice text (len word) (len text) else text

abbrev pub one_if : Bool → ℕ → ℕ
one_if true n = n
one_if false n = 0

-- The names in the order of the ifs, each taken off where the text begins with it.
abbrev pub read_words : String → Flags
read_words t0 =
    let t1 = after t0 "passive" in
    let t2 = after t1 "canonical name" in
    let t3 = after t2 "numeric host" in
    let t4 = after t3 "numeric service" in
    let t5 = after t4 "config" in
    let t6 = after t5 "v4mapped" in
    record {
      passive = begins t0 "passive";
      canonname = begins t1 "canonical name";
      numerichost = begins t2 "numeric host";
      numericserv = begins t3 "numeric service";
      addrconfig = begins t4 "config";
      v4mapped = begins t5 "v4mapped";
      all = begins t6 "all";
    }

abbrev pub read_flags : String → Flags
read_flags text = read_words (after text "flasg:")

abbrev pub flags : (a b c d e f g : Bool) → Flags
flags a b c d e f g = record {
  passive = a;
  canonname = b;
  numerichost = c;
  numericserv = d;
  addrconfig = e;
  v4mapped = f;
  all = g;
}

-- Tests on all values of a Boolean.
every : (Bool → Bool) → Bool
every p = p true && p false

every-at : (p : Bool → Bool) → every p ≡ true → (b : Bool) → p b ≡ true
unfolding every
every-at p h true = ground (arith, h)
every-at p h false = ground (arith, h)

abbrev same : Bool → Bool → Bool
same true b = b
same false b = not b

abbrev same_flags : Flags → Flags → Bool
same_flags f g =
    same f.passive g.passive
    && same f.canonname g.canonname
    && same f.numerichost g.numerichost
    && same f.numericserv g.numericserv
    && same f.addrconfig g.addrconfig
    && same f.v4mapped g.v4mapped
    && same f.all g.all

same_flags-eq : (f g : Flags) → same_flags f g ≡ true → f ≡ g
same_flags-eq f g h = ground (arith, h)

-- The number that the headers make of flags: AI_PASSIVE is 0x1, AI_CANONNAME 0x2, AI_NUMERICHOST 0x4,
-- AI_V4MAPPED 0x8, AI_ALL 0x10, AI_ADDRCONFIG 0x20 and AI_NUMERICSERV 0x400.
abbrev pub number_of : Flags → ℕ
number_of f =
    one_if f.passive 0x1
    + one_if f.canonname 0x2
    + one_if f.numerichost 0x4
    + one_if f.v4mapped 0x8
    + one_if f.all 0x10
    + one_if f.addrconfig 0x20
    + one_if f.numericserv 0x400

-- An entry with these flags.
abbrev pub with_flags : AddrInfo → Flags → AddrInfo
with_flags ai f = record ai { flags = number_of f }

abbrev line : (a b c d e f g : Bool) → String
line a b c d e f g = flags_line (number_of (flags a b c d e f g))

abbrev reads_back : (a b c d e f g : Bool) → Bool
reads_back a b c d e f g = same_flags (read_flags (line a b c d e f g)) (flags a b c d e f g)

all_read_back :
    every (λ a. every (λ b.
      every (λ c. every (λ d. every (λ e. every (λ f. every (λ g. reads_back a b c d e f g)))))))
    ≡ true
unfolding flags_line words flags_of has every
all_read_back = refl

read_flags-line : (a b c d e f g : Bool) → read_flags (line a b c d e f g) ≡ flags a b c d e f g
read_flags-line a b c d e f g = same_flags-eq _ _ (
    every-at _
      (every-at _
        (every-at _ (every-at _ (every-at _ (every-at _ (every-at _ all_read_back a) b) c) d) e) f)
      g)

-- For every set of the seven flags: where an entry has the number that the headers of Linux make of
-- it, the set can be read back from the line that print_flags prints, though nothing stands
-- between the names; so two sets never have the same line.
pub read_flags-print_flags :
    (ai : AddrInfo) (f : Flags) → read_flags (print_flags (with_flags ai f)) ≡ f
unfolding print_flags
read_flags-print_flags ai f =
    read_flags-line f.passive f.canonname f.numerichost f.numericserv f.addrconfig f.v4mapped f.all
