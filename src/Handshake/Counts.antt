-- ===== src/Handshake/Counts.antt =====
-- What is left of a program.
use myapue.Base.{
  ℕ, suc, ◌+◌, ◌*◌, ◌==◌, ◌&&◌, if◌then◌else◌, Bool, true, false, List, [], ◌∷◌, length,
}
use myapue.Handshake.{Action, tell, wait, wait_masked, suspend, unmask, Process}

abbrev pub tells : List Action → ℕ
tells [] = 0
tells (tell ∷ rest) = suc (tells rest)
tells (_ ∷ rest) = tells rest

abbrev pub waits : List Action → ℕ
waits [] = 0
waits (wait reset ∷ rest) = suc (waits rest)
waits (wait_masked ∷ rest) = suc (waits rest)
waits (suspend ∷ rest) = suc (waits rest)
waits (_ ∷ rest) = waits rest

abbrev pub suspends : List Action → ℕ
suspends [] = 0
suspends (suspend ∷ rest) = suc (suspends rest)
suspends (_ ∷ rest) = suspends rest

-- No sigsuspend stands alone after the signal has been unblocked.
abbrev pub suspends_masked : List Action → Bool
suspends_masked [] = true
suspends_masked (unmask ∷ rest) = suspends rest == 0 && suspends_masked rest
suspends_masked (_ ∷ rest) = suspends_masked rest

-- No action after a wait tells.
abbrev pub tells_first : List Action → Bool
tells_first [] = true
tells_first (wait reset ∷ rest) = tells rest == 0 && tells_first rest
tells_first (wait_masked ∷ rest) = tells rest == 0 && tells_first rest
tells_first (suspend ∷ rest) = tells rest == 0 && tells_first rest
tells_first (_ ∷ rest) = tells_first rest

abbrev pub zero_if : Bool → ℕ
zero_if true = 0
zero_if false = 1

-- More than the steps that a process can still take.
abbrev pub left : Process → ℕ
left p = 3 * length p.rest + zero_if p.flag + zero_if (if p.running then false else true)
