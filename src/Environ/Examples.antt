-- ===== src/Environ/Examples.antt =====
-- The theorems about getenv at a concrete environment.
use myapue.Base.{
  ℕ, ◌+◌, ◌-◌, ◌≡◌, ◌∙◌, refl, arith, List, [], ◌∷◌, ◌++◌, length, get_or, replicate, map, none,
  some,
}
use myapue.Base.{zero, suc, length-append}
use myapue.Environ.{
  Guarded, Thread, maxstringsz, getenv, getenv_r, getenv_own, find_value, is_entry, strncmp_zero,
  copy_out, lock, unlock, own_buffer,
}
use myapue.Environ.Buffer.{strcpy}
use myapue.Environ.Entry.{entry_of, IsName, IsEnviron, lookup}
use myapue.Environ.Lookup.{
  IsBuffer, Gets, getenv-Gets, Copies, getenv_r-Copies, GetsOwn, getenv_own-GetsOwn,
}

-- HO=/r and H=/
abbrev pairs : List (List ℕ × List ℕ)
pairs = (72 ∷ 79 ∷ [], 47 ∷ 114 ∷ []) ∷ (72 ∷ [], 47 ∷ []) ∷ []

abbrev name : List ℕ
name = 72 ∷ []

abbrev before : Guarded
before = record { held = 0; bytes = 1 ∷ 1 ∷ 1 ∷ [] }

getenv_r_two : (getenv_r (map entry_of pairs) name 2 before).1.bytes ≡ 47 ∷ 0 ∷ 1 ∷ []
unfolding getenv_r find_value is_entry strncmp_zero copy_out lock unlock strcpy
getenv_r_two = refl

pairs-IsEnviron : IsEnviron pairs
pairs-IsEnviron = ground arith

name-IsName : IsName name
name-IsName = ground arith

length-replicate : (n a : ℕ) → length (replicate n a) ≡ n
length-replicate zero a = refl
length-replicate (suc n) a = omega (arith, length-replicate n a)

get_or-replicate : (n a d : ℕ) → get_or (replicate n a ++ (a ∷ [])) n d ≡ a
get_or-replicate zero a d = refl
get_or-replicate (suc n) a d = get_or-replicate n a d

abbrev zeros : ℕ → List ℕ
zeros n = replicate n 0 ++ (0 ∷ [])

zeros-IsBuffer : (n : ℕ) → n + 1 ≡ maxstringsz → IsBuffer (zeros n)
zeros-IsBuffer n e =
    let last : maxstringsz - 1 ≡ n = omega arith in
    (
      length-append (replicate n 0) (0 ∷ []) ∙ omega (arith, length-replicate n 0),
      rw last (get_or-replicate n 0 1),
    )

getenv-Gets_example :
    let r = getenv (map entry_of pairs) name (zeros 4095) in
    Gets (lookup name pairs) (zeros 4095) r × IsBuffer r.1
getenv-Gets_example =
    getenv-Gets pairs name (zeros 4095) pairs-IsEnviron name-IsName (zeros-IsBuffer 4095 refl)

getenv_r-Copies_example :
    let r = getenv_r (map entry_of pairs) name 2 before in
    Copies (lookup name pairs) 2 (1 ∷ 1 ∷ 1 ∷ []) r × (r.1.held ≡ 0) × (length r.1.bytes ≡ 3)
getenv_r-Copies_example =
    getenv_r-Copies pairs name 2 before pairs-IsEnviron name-IsName (omega arith)

abbrev idle : Thread
idle = record { locks = 0; specific = none }

getenv_own-GetsOwn_example :
    let r = getenv_own (map entry_of pairs) name (some (replicate 4096 7)) idle in
    GetsOwn (lookup name pairs) (own_buffer (some (replicate 4096 7)) none) r × (r.1.locks ≡ 0)
unfolding own_buffer
getenv_own-GetsOwn_example =
    getenv_own-GetsOwn pairs name (some (replicate 4096 7)) idle pairs-IsEnviron name-IsName
      (length-replicate 4096 7)
