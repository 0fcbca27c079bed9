-- ===== src/RebootTest/Commands/Campaign.antt =====
-- Applications/RebootTest/RebootTest.c with Scripts/RebootTest/startup.nsh: boots that each run `continue`.
use uefi_tools_pkg.Base.{
  ℕ, zero, suc, ◌+◌, ◌-◌, ◌≤◌, ◌≡◌, refl, ap, subst, Option, none, some, arith,
}
use uefi_tools_pkg.Action.{Run, done, restarted}
use uefi_tools_pkg.Action.Ends.{Ends, finished, reset}
use uefi_tools_pkg.RebootTest.State.{RebootState, Bytes, encode, decode}
use uefi_tools_pkg.RebootTest.Firmware.{Firmware}
use uefi_tools_pkg.RebootTest.Firmware.Laws.{FileLaws}
use uefi_tools_pkg.RebootTest.Store.Check.{seal}
use uefi_tools_pkg.RebootTest.Store.Load.{IsStored}
use uefi_tools_pkg.RebootTest.Commands.{continue_test}
use uefi_tools_pkg.RebootTest.Commands.Continue.{Continues, continue_test-Ends}
use uefi_tools_pkg.RebootTest.Commands.Stored.{
  next_state, IsWellFormed, IsWellFormed-next, IsDisarmed, IsStored-IsWellFormed,
  decode-encode-seal,
}

-- `Boots n w`: from `w`, `n` boots in a row run `continue` and end in a reset. A reset, and what
-- happens before the next run, leaves the file alone.
pub data Boots {W H : Type 0} (fw : Firmware W H) (file : W → Option Bytes) : ℕ → W → Type 0 where
  last : {w : W} → Boots fw file zero w
  boot :
      {n t : ℕ} {w w1 w2 : W}
      → continue_test fw w ≡ restarted t w1
      → file w2 ≡ file w1
      → Boots fw file n w2
      → Boots fw file (suc n) w

-- cycles that are left in the stored state
unfoldable pub remaining : Option Bytes → ℕ
remaining none = 0
remaining (some bytes) = (decode bytes).target_resets - (decode bytes).completed_resets

abbrev RestartsIn : {W A : Type 0} → (ℕ → W → Type 0) → Run W A → Type 0
RestartsIn K (done a w) = Unit {0}
RestartsIn K (restarted t w) = K t w

Ends-RestartsIn :
    {W A : Type 0} {K : ℕ → W → Type 0} {Q : A → W → Type 0} {r : Run W A}
    → Ends K Q r
    → RestartsIn K r
Ends-RestartsIn (finished q) = tt
Ends-RestartsIn (reset k) = k

-- What holds at a restart holds at this one.
pub Ends-restarted :
    {W A : Type 0} (K : ℕ → W → Type 0) {Q : A → W → Type 0} {r : Run W A} (t : ℕ) (w : W)
    → Ends K Q r
    → r ≡ restarted t w
    → K t w
Ends-restarted K t w h e = subst (RestartsIn K) e (Ends-RestartsIn h)

module _ {W H : Type 0} {fw : Firmware W H} where
  remaining_stored :
      (held : Option Bytes) (s : RebootState)
      → IsStored fw held s
      → remaining held ≡ s.target_resets - s.completed_resets
  unfolding remaining
  remaining_stored held s stored = rw (stored.on_volume, ← stored.read_back)

module _ {W H : Type 0} {fw : Firmware W H} {file : W → Option Bytes} {cursor : H → W → ℕ}
    (laws : FileLaws fw file cursor) where
  pub remaining_saved :
      (held : Option Bytes) (t : RebootState)
      → IsWellFormed t
      → held ≡ some (encode (seal fw t))
      → remaining held ≡ t.target_resets - t.completed_resets
  unfolding remaining
  remaining_saved held t v h = rw (h, decode-encode-seal laws t v)

  -- a boot that resets leaves one cycle less, and at least one
  step-remaining :
      (t : ℕ) (held kept : Option Bytes)
      → Continues fw held t kept
      → (1 ≤ remaining kept) × (remaining kept + 1 ≤ remaining held)
  step-remaining t held kept c =
      let v = IsStored-IsWellFormed held c.before c.stored in
      let more = c.more in
      let left = remaining_stored held c.before c.stored in
      let kept_left =
        remaining_saved kept (next_state c.before) (IsWellFormed-next c.before v more) c.saved in
      (omega (arith, more, kept_left), omega (arith, more, left, kept_left))

  -- With firmware that keeps the file laws: from any world, the boots in a row that end in a reset
  -- are fewer than the cycles that the stored state has left (none, where it has none left or no
  -- state is stored).
  pub Boots-bounded : {n : ℕ} {w : W} → Boots fw file n w → n ≤ remaining (file w) - 1
  Boots-bounded last = omega arith
  Boots-bounded (boot {t} {w} {w1} e same rest) =
      let c =
        Ends-restarted (λ t w1. Continues fw (file w) t (file w1)) t w1 (continue_test-Ends laws w)
          e in
      let steps = step-remaining t (file w) (file w1) c in
      let later = Boots-bounded rest in
      let same' = ap remaining same in omega (arith, steps.0, steps.1, later, same')

  -- With firmware that keeps the file laws: where no active state is stored, no boot that continues
  -- ends in a reset.
  pub IsDisarmed-Boots : {n : ℕ} {w : W} → IsDisarmed fw (file w) → Boots fw file n w → n ≡ 0
  IsDisarmed-Boots off last = refl
  IsDisarmed-Boots off (boot {t} {w} {w1} e same rest) =
      let c =
        Ends-restarted (λ t w1. Continues fw (file w) t (file w1)) t w1 (continue_test-Ends laws w)
          e in
      absurd (omega (arith, off c.before c.stored, c.active))
