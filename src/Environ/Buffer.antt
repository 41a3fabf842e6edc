-- ===== src/Environ/Buffer.antt =====
-- strncpy and strcpy of the C library, as its manual describes them, and the string in a buffer.
use myapue.Base.{ℕ, zero, suc, ◌≤◌, ◌<◌, ◌≡◌, refl, ap, arith}
use myapue.Base.{List, [], ◌∷◌, length, get_or, take, All, Option, none, some}
use mathlib.Core.Option

-- strncpy(dst, src, n): `n` bytes are written, zeros after the end of `src`.
pub strncpy : ℕ → List ℕ → List ℕ → List ℕ
strncpy zero src dst = dst
strncpy (suc n) src [] = []
strncpy (suc n) [] (d ∷ ds) = 0 ∷ strncpy n [] ds
strncpy (suc n) (c ∷ cs) (d ∷ ds) = c ∷ strncpy n cs ds

-- strcpy(dst, src)
unfoldable pub strcpy : List ℕ → List ℕ → List ℕ
strcpy src [] = []
strcpy [] (d ∷ ds) = 0 ∷ ds
strcpy (c ∷ cs) (d ∷ ds) = c ∷ strcpy cs ds

-- The string that a buffer holds, if it has a terminator.
abbrev pub string_in : List ℕ → Option (List ℕ)
string_in [] = none
string_in (zero ∷ cs) = some []
string_in (suc c ∷ cs) = Option.map (λ s. suc c ∷ s) (string_in cs)

abbrev pub IsString : List ℕ → Type 0
IsString = All (λ c. 0 < c)

pub length-strncpy : (n : ℕ) (src dst : List ℕ) → length (strncpy n src dst) ≡ length dst
unfolding strncpy
length-strncpy zero src dst = refl
length-strncpy (suc n) src [] = refl
length-strncpy (suc n) [] (d ∷ ds) = omega (arith, length-strncpy n [] ds)
length-strncpy (suc n) (c ∷ cs) (d ∷ ds) = omega (arith, length-strncpy n cs ds)

-- The byte behind the `n` that are written stays.
pub get_or-strncpy : (n : ℕ) (src dst : List ℕ) → get_or (strncpy n src dst) n 1 ≡ get_or dst n 1
unfolding strncpy
get_or-strncpy zero src dst = refl
get_or-strncpy (suc n) src [] = refl
get_or-strncpy (suc n) [] (d ∷ ds) = get_or-strncpy n [] ds
get_or-strncpy (suc n) (c ∷ cs) (d ∷ ds) = get_or-strncpy n cs ds

-- A string that is too long is cut, if the byte behind the `n` is a terminator.
pub string_in-strncpy :
    (n : ℕ) (src dst : List ℕ)
    → IsString src
    → get_or dst n 1 ≡ 0
    → string_in (strncpy n src dst) ≡ some (take n src)
unfolding strncpy
string_in-strncpy zero src [] h e = absurd (omega arith)
string_in-strncpy zero src (zero ∷ ds) h e = refl
string_in-strncpy zero src (suc d ∷ ds) h e = absurd (omega arith)
string_in-strncpy (suc n) src [] h e = absurd (omega arith)
string_in-strncpy (suc n) [] (d ∷ ds) h e = refl
string_in-strncpy (suc n) (zero ∷ cs) (d ∷ ds) h e = absurd (omega (arith, h.0))
string_in-strncpy (suc n) (suc c ∷ cs) (d ∷ ds) h e =
    ap (Option.map (λ s. suc c ∷ s)) (string_in-strncpy n cs ds h.1 e)

-- A string that fits is copied whole, whatever the buffer held.
pub string_in-strncpy_fits :
    (n : ℕ) (src dst : List ℕ)
    → IsString src
    → length src < n
    → n ≤ length dst
    → string_in (strncpy n src dst) ≡ some src
unfolding strncpy
string_in-strncpy_fits zero src dst h l m = absurd (omega arith)
string_in-strncpy_fits (suc n) src [] h l m = absurd (omega arith)
string_in-strncpy_fits (suc n) [] (d ∷ ds) h l m = refl
string_in-strncpy_fits (suc n) (zero ∷ cs) (d ∷ ds) h l m = absurd (omega (arith, h.0))
string_in-strncpy_fits (suc n) (suc c ∷ cs) (d ∷ ds) h l m =
    ap (Option.map (λ s. suc c ∷ s))
      (string_in-strncpy_fits n cs ds h.1 (omega arith) (omega arith))

pub length-strcpy : (src dst : List ℕ) → length (strcpy src dst) ≡ length dst
unfolding strcpy
length-strcpy src [] = refl
length-strcpy [] (d ∷ ds) = refl
length-strcpy (c ∷ cs) (d ∷ ds) = omega (arith, length-strcpy cs ds)

pub string_in-strcpy :
    (src dst : List ℕ)
    → IsString src
    → length src < length dst
    → string_in (strcpy src dst) ≡ some src
unfolding strcpy
string_in-strcpy src [] h l = absurd (omega arith)
string_in-strcpy [] (d ∷ ds) h l = refl
string_in-strcpy (zero ∷ cs) (d ∷ ds) h l = absurd (omega (arith, h.0))
string_in-strcpy (suc c ∷ cs) (d ∷ ds) h l =
    ap (Option.map (λ s. suc c ∷ s)) (string_in-strcpy cs ds h.1 (omega arith))
