-- ===== src/Action.antt =====
-- Firmware calls with effects, and the C functions built from them. A call of `ResetSystem` may
-- not return, so a function either is done or has ended in a restart of the machine.
pub mod Ends
use uefi_tools_pkg.Base.{ℕ}

-- a firmware service: what it returns, and the world after the call
abbrev pub Op : Type 0 → Type 0 → Type 0
Op W A = W → A × W

pub data Run (W A : Type 0) : Type 0 where
  done : A → W → Run W A
  restarted : ℕ → W → Run W A

abbrev pub Action : Type 0 → Type 0 → Type 0
Action W A = W → Run W A

module _ {W A : Type 0} where
  unfoldable pub pure : A → Action W A
  pure a w = done a w

  unfoldable pub call : Op W A → Action W A
  call op w = let (a, w') = op w in done a w'

module _ {W A B : Type 0} where
  abbrev and_then : Run W A → (A → Action W B) → Run W B
  and_then (done a w) f = f a w
  and_then (restarted t w) f = restarted t w

  infixl 5 ◌>>=◌ ◌>>◌
  unfoldable pub ◌>>=◌ : Action W A → (A → Action W B) → Action W B
  unfolding pure call
  ◌>>=◌ m f w = and_then (m w) f

  abbrev pub ◌>>◌ : Action W A → Action W B → Action W B
  m >> n = m >>= λ _. n
