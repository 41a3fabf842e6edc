-- ===== src/Environ.antt =====
-- 12.threadcontrol: getenv and getenv_r of 02_getenv1.c, 03_getenv2.c and 04_getenv3.c. A string
-- of C is the list of its characters before the terminator; a buffer is the list of its bytes.
pub mod Buffer
pub mod Entry
pub mod Lookup
mod Examples
use myapue.Base.{ℕ, zero, suc, ◌+◌, ◌-◌, leb, ◌==◌, if◌then◌else◌, ◌&&◌, Bool, true, false}
use myapue.Base.{List, [], ◌∷◌, length, get_or, drop, Option, none, some}
use myapue.Environ.Buffer.{strncpy, strcpy}

-- '='
abbrev pub equals_sign : ℕ
equals_sign = 61

-- strncmp(s, t, n) == 0
pub strncmp_zero : ℕ → List ℕ → List ℕ → Bool
strncmp_zero zero s t = true
strncmp_zero (suc n) [] [] = true
strncmp_zero (suc n) [] (y ∷ ys) = false
strncmp_zero (suc n) (x ∷ xs) [] = false
strncmp_zero (suc n) (x ∷ xs) (y ∷ ys) = x == y && strncmp_zero n xs ys

-- The test of an entry of `environ`.
pub is_entry : List ℕ → List ℕ → Bool
is_entry name entry =
    strncmp_zero (length name) name entry && get_or entry (length name) 0 == equals_sign

-- The loop over `environ`: &environ[i][len + 1] of the first entry that passes the test.
pub find_value : List ℕ → List (List ℕ) → Option (List ℕ)
find_value name [] = none
find_value name (entry ∷ environ) =
    let rest = find_value name environ in
    if is_entry name entry then some (drop (length name + 1) entry) else rest

-- What getenv returns: NULL, or the address of its buffer.
pub data Pointer : Type 0 where
  null : Pointer
  buffer : Pointer

-- 02_getenv1.c: MAXSTRINGSZ, and getenv with the contents of envbuffer.
abbrev pub maxstringsz : ℕ
maxstringsz = 4096

pub copy_static : Option (List ℕ) → List ℕ → Pointer × List ℕ
copy_static none envbuffer = (null, envbuffer)
copy_static (some value) envbuffer = (buffer, strncpy (maxstringsz - 1) value envbuffer)

pub getenv : List (List ℕ) → List ℕ → List ℕ → Pointer × List ℕ
getenv environ name envbuffer = copy_static (find_value name environ) envbuffer

-- 03_getenv2.c: how often the recursive mutex is held, and the caller's buffer.
pub record Guarded : Type 0 where
  pub held : ℕ
  pub bytes : List ℕ

abbrev pub enospc : ℕ
enospc = 28

abbrev pub enoent : ℕ
enoent = 2

pub lock : Guarded → Guarded
lock s = record { held = s.held + 1; bytes = s.bytes }

pub unlock : Guarded → Guarded
unlock s = record { held = s.held - 1; bytes = s.bytes }

pub copy_out : Option (List ℕ) → ℕ → Guarded → ℕ × Guarded
unfolding unlock
copy_out none size s = (enoent, unlock s)
copy_out (some value) size s =
    if leb size (length value)
    then (enospc, unlock s)
    else (0, unlock (record { held = s.held; bytes = strcpy value s.bytes }))

pub getenv_r : List (List ℕ) → List ℕ → ℕ → Guarded → ℕ × Guarded
unfolding lock copy_out
getenv_r environ name size s = copy_out (find_value name environ) size (lock s)

-- 04_getenv3.c: how often the mutex is held, and the buffer of the thread, if it has one.
pub record Thread : Type 0 where
  pub locks : ℕ
  pub specific : Option (List ℕ)

-- The buffer of the thread; `malloc` answers with the bytes that lie there, or not at all.
pub own_buffer : Option (List ℕ) → Option (List ℕ) → Option (List ℕ)
own_buffer malloc none = malloc
own_buffer malloc (some value_buffer) = some value_buffer

pub copy_own : Option (List ℕ) → Option (List ℕ) → ℕ → Pointer × Thread
copy_own value none held = (null, record { locks = held - 1; specific = none })
copy_own none (some value_buffer) held =
    (null, record { locks = held - 1; specific = some value_buffer })
copy_own (some value) (some value_buffer) held = (
  buffer,
  record { locks = held - 1; specific = some (strncpy (maxstringsz - 1) value value_buffer) },
)

pub getenv_own : List (List ℕ) → List ℕ → Option (List ℕ) → Thread → Pointer × Thread
unfolding own_buffer copy_own
getenv_own environ name malloc s =
    copy_own (find_value name environ) (own_buffer malloc s.specific) (s.locks + 1)
