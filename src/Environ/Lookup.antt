-- ===== src/Environ/Lookup.antt =====
-- The three variants of getenv: what they return, and what they leave in the buffer.
use myapue.Base.{ℕ, ◌+◌, ◌-◌, ◌≤◌, ◌<◌, ◌≡◌, ◌∙◌, ◌⊎◌, inl, inr, refl, arith, leb, Bool-cases}
use myapue.Base.{List, length, get_or, take, map, Option, none, some}
use myapue.Environ.{Pointer, null, buffer, maxstringsz, getenv, copy_static}
use myapue.Environ.{Guarded, enospc, enoent, lock, unlock, copy_out, getenv_r}
use myapue.Environ.{Thread, own_buffer, copy_own, getenv_own}
use myapue.Environ.Buffer.{strncpy, string_in, IsString, length-strncpy, get_or-strncpy}
use myapue.Environ.Buffer.{
  string_in-strncpy, string_in-strncpy_fits, length-strcpy, string_in-strcpy,
}
use myapue.Environ.Entry.{entry_of, IsName, IsEnviron, lookup, find_value-lookup, lookup-IsString}

-- A value that stands for something is a string.
abbrev HasString : Option (List ℕ) → Type 0
HasString none = Unit
HasString (some value) = IsString value

lookup-HasString :
    (name : List ℕ) (pairs : List (List ℕ × List ℕ)) (o : Option (List ℕ))
    → IsEnviron pairs
    → lookup name pairs ≡ o
    → HasString o
lookup-HasString name pairs none k e = tt
lookup-HasString name pairs (some value) k e = lookup-IsString name pairs value k e

-- envbuffer: its last byte is a terminator.
abbrev pub IsBuffer : List ℕ → Type 0
IsBuffer b = (length b ≡ maxstringsz) × (get_or b (maxstringsz - 1) 1 ≡ 0)

-- What getenv returns and leaves, from the value of the variable and the old buffer.
abbrev pub Gets : Option (List ℕ) → List ℕ → Pointer × List ℕ → Type 0
Gets none old (null, b) = b ≡ old
Gets (some value) old (buffer, b) = string_in b ≡ some (take (maxstringsz - 1) value)
Gets _ old _ = ⊥

copy_static-Gets :
    (o : Option (List ℕ)) (old : List ℕ)
    → HasString o
    → IsBuffer old
    → let r = copy_static o old in Gets o old r × IsBuffer r.1
unfolding copy_static
copy_static-Gets none old h b = (refl, b)
copy_static-Gets (some value) old h b = (
  string_in-strncpy (maxstringsz - 1) value old h b.1,
  (
    length-strncpy (maxstringsz - 1) value old ∙ b.0,
    get_or-strncpy (maxstringsz - 1) value old ∙ b.1,
  ),
)

-- In an environment of entries name=value, getenv of 02_getenv1.c returns NULL and leaves its
-- buffer alone if no entry has the name; else the buffer holds the value of the first such entry,
-- cut after 4095 characters. The buffer keeps its size and its last terminator.
pub getenv-Gets :
    (pairs : List (List ℕ × List ℕ)) (name old : List ℕ)
    → IsEnviron pairs
    → IsName name
    → IsBuffer old
    → let r = getenv (map entry_of pairs) name old in Gets (lookup name pairs) old r × IsBuffer r.1
unfolding getenv
getenv-Gets pairs name old k h b =
    rw (find_value-lookup name pairs h k)
      (copy_static-Gets (lookup name pairs) old (lookup-HasString name pairs _ k refl) b)

-- What getenv_r returns and leaves in the caller's buffer.
abbrev pub Copies : Option (List ℕ) → ℕ → List ℕ → ℕ × Guarded → Type 0
Copies none size old (r, s) = (r ≡ enoent) × (s.bytes ≡ old)
Copies (some value) size old (r, s) =
    ((size ≤ length value) × (r ≡ enospc) × (s.bytes ≡ old))
    ⊎ ((length value < size) × (r ≡ 0) × (string_in s.bytes ≡ some value))

copy_out-Copies :
    (o : Option (List ℕ)) (size : ℕ) (s : Guarded)
    → HasString o
    → size ≤ length s.bytes
    → let r = copy_out o size (lock s) in
      Copies o size s.bytes r × (r.1.held ≡ s.held) × (length r.1.bytes ≡ length s.bytes)
unfolding copy_out lock unlock
copy_out-Copies none size s h l = ((refl, refl), omega arith, refl)
copy_out-Copies (some value) size s h l = elim (Bool-cases (leb size (length value))) [
  | inl long ↦ rw long (inl (ground arith, refl, refl), omega arith, refl)
  | inr short ↦
      let fits : length value < size = ground arith in
      rw short (
        inr (fits, refl, string_in-strcpy value s.bytes h (omega arith)),
        omega arith,
        length-strcpy value s.bytes,
      )
]

-- In an environment of entries name=value and with a buffer of at least `size` bytes, getenv_r
-- returns ENOENT if no entry has the name, ENOSPC if the value and its terminator do not fit into
-- `size` bytes, and else 0 with the whole value in the buffer; on an error the buffer is as it was.
-- On each path the mutex is released as often as it is taken.
pub getenv_r-Copies :
    (pairs : List (List ℕ × List ℕ)) (name : List ℕ) (size : ℕ) (s : Guarded)
    → IsEnviron pairs
    → IsName name
    → size ≤ length s.bytes
    → let r = getenv_r (map entry_of pairs) name size s in
      Copies (lookup name pairs) size s.bytes r
      × (r.1.held ≡ s.held)
      × (length r.1.bytes ≡ length s.bytes)
unfolding getenv_r
getenv_r-Copies pairs name size s k h l =
    rw (find_value-lookup name pairs h k)
      (copy_out-Copies (lookup name pairs) size s (lookup-HasString name pairs _ k refl) l)

-- A buffer of the size that malloc is asked for, if there is one.
abbrev pub IsSized : Option (List ℕ) → Type 0
IsSized none = Unit
IsSized (some b) = length b ≡ maxstringsz

-- The thread's buffer after a value has been copied to it.
abbrev pub IsCopied : List ℕ → List ℕ → List ℕ → Type 0
IsCopied value old b =
    ((length value < maxstringsz - 1) × (string_in b ≡ some value))
    ⊎ ((maxstringsz - 1 ≤ length value)
        × (get_or b (maxstringsz - 1) 1 ≡ get_or old (maxstringsz - 1) 1))

-- What getenv returns and leaves, from the value and the buffer that the thread has or is given.
abbrev pub GetsOwn : Option (List ℕ) → Option (List ℕ) → Pointer × Thread → Type 0
GetsOwn o none (null, s) = s.specific ≡ none
GetsOwn none (some old) (null, s) = s.specific ≡ some old
GetsOwn (some value) (some old) (buffer, s) =
    (b : List ℕ) × (s.specific ≡ some b) × IsCopied value old b × (length b ≡ maxstringsz)
GetsOwn _ _ _ = ⊥

copy_own-GetsOwn :
    (o own : Option (List ℕ)) (locks : ℕ)
    → HasString o
    → IsSized own
    → let r = copy_own o own (locks + 1) in GetsOwn o own r × (r.1.locks ≡ locks)
unfolding copy_own
copy_own-GetsOwn none none locks h z = (refl, omega arith)
copy_own-GetsOwn (some value) none locks h z = (refl, omega arith)
copy_own-GetsOwn none (some old) locks h z = (refl, omega arith)
copy_own-GetsOwn (some value) (some old) locks h z = (
  (
    strncpy (maxstringsz - 1) value old,
    refl,
    elim (Bool-cases (leb (maxstringsz - 1) (length value))) [
      | inl long ↦ inr (ground arith, get_or-strncpy (maxstringsz - 1) value old)
      | inr short ↦
          let fits : length value < maxstringsz - 1 = ground arith in
          inl (fits, string_in-strncpy_fits (maxstringsz - 1) value old h fits (omega arith))
    ],
    length-strncpy (maxstringsz - 1) value old ∙ z,
  ),
  omega arith,
)

-- In an environment of entries name=value, getenv of 04_getenv3.c returns NULL if the thread has no
-- buffer and is given none, or if no entry has the name. Else it returns the thread's buffer, which
-- holds the whole value if that is shorter than 4095 characters; for a longer one the last byte of
-- the buffer is what malloc left there, not a terminator of this function. The mutex is released
-- as often as it is taken.
pub getenv_own-GetsOwn :
    (pairs : List (List ℕ × List ℕ)) (name : List ℕ) (malloc : Option (List ℕ)) (s : Thread)
    → IsEnviron pairs
    → IsName name
    → IsSized (own_buffer malloc s.specific)
    → let r = getenv_own (map entry_of pairs) name malloc s in
      GetsOwn (lookup name pairs) (own_buffer malloc s.specific) r × (r.1.locks ≡ s.locks)
unfolding getenv_own
getenv_own-GetsOwn pairs name malloc s k h z = rw (find_value-lookup name pairs h k) (
    copy_own-GetsOwn (lookup name pairs) (own_buffer malloc s.specific) s.locks
      (lookup-HasString name pairs _ k refl) z)
