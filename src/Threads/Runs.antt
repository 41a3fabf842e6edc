-- ===== src/Threads/Runs.antt =====
-- Runs of a function on a state that its threads share.
use myapue.Base.{ℕ, ◌==◌, if◌then◌else◌}

-- A run returns, follows a pointer to no object, waits for a lock that nobody will release, or has
-- not ended within its rounds.
pub data Run (S A : Type 0) : Type 0 where
  ok : A → S → Run S A
  fault : Run S A
  blocks : Run S A
  spins : Run S A

abbrev pub then_run : {S A B : Type 0} → Run S A → (A → S → Run S B) → Run S B
then_run (ok a s) f = f a s
then_run fault f = fault
then_run blocks f = blocks
then_run spins f = spins

infixl 5 ◌>>=◌ ◌>>◌
abbrev pub ◌>>=◌ : {S A B : Type 0} → (S → Run S A) → (A → S → Run S B) → S → Run S B
◌>>=◌ m f s = then_run (m s) f

abbrev pub ◌>>◌ : {S A B : Type 0} → (S → Run S A) → (S → Run S B) → S → Run S B
◌>>◌ m k s = then_run (m s) (λ _. k)

abbrev pub pure : {S A : Type 0} → A → S → Run S A
pure = ok

abbrev pub write {ℓ} : {A : Type ℓ} → (ℕ → A) → ℕ → A → ℕ → A
write f p v a = if a == p then v else f a
