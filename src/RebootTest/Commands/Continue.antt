-- ===== src/RebootTest/Commands/Continue.antt =====
-- Applications/RebootTest/RebootTest.c: `ContinueTest`.
use uefi_tools_pkg.Base.{
  ℕ, ◌+◌, ◌%◌, ◌^◌, ◌<◌, ◌≡◌, refl, ◌∙◌, ap, Option, some, false, ◌==◌, leb, arith,
}
use uefi_tools_pkg.Efi.{efi_error, is_not_found, success}
use uefi_tools_pkg.Action.Ends.{Ends, Ends-if, Ends-bind, Ends-bind_keep, Ends-mono}
use uefi_tools_pkg.RebootTest.State.{RebootState, Bytes, encode}
use uefi_tools_pkg.RebootTest.Firmware.{Firmware}
use uefi_tools_pkg.RebootTest.Firmware.Laws.{FileLaws}
use uefi_tools_pkg.RebootTest.Store.Check.{seal}
use uefi_tools_pkg.RebootTest.Store.Load.{IsStored, load_state-Loads}
use uefi_tools_pkg.RebootTest.Store.Save.{save_state-Leaves}
use uefi_tools_pkg.RebootTest.Commands.{advance, continue_test}
use uefi_tools_pkg.RebootTest.Commands.Reset.{report-Ends, reset_system_for_test-Ends}
use uefi_tools_pkg.RebootTest.Commands.Stored.{
  IsWellFormed, next_state, stopped_state, IsDisarmed, none-IsDisarmed, stopped-IsDisarmed,
  inactive-IsDisarmed, IsStored-IsWellFormed, IsWellFormed-finished,
}

-- A reset of type `t` that `ContinueTest` may ask for, where the file held `held` and holds `kept`.
pub record Continues {W H : Type 0} (fw : Firmware W H) (held : Option Bytes) (t : ℕ)
    (kept : Option Bytes) : Type 0 where
  pub before : RebootState
  pub stored : IsStored fw held before
  pub active : before.active ≡ 1
  pub more : before.completed_resets + 1 < before.target_resets
  pub kind : t ≡ before.reset_type
  pub saved : kept ≡ some (encode (seal fw (next_state before)))

increment :
    (s : RebootState)
    → s.completed_resets < 4294967295
    → record s { completed_resets = (s.completed_resets + 1) % 2 ^ 32 } ≡ next_state s
increment s h =
    ap (λ (n : ℕ). record s { completed_resets = n })
      (let small : (s.completed_resets + 1) % 2 ^ 32 ≡ s.completed_resets + 1 = omega arith in
        small)

small_count : (s : RebootState) → IsWellFormed s → s.completed_resets < 4294967295
small_count s v = omega (arith, v.in_range)

active_one : (s : RebootState) → IsWellFormed s → (s.active == 0) ≡ false → s.active ≡ 1
active_one s v h = ground arith

module _ {W H : Type 0} {fw : Firmware W H} {file : W → Option Bytes} {cursor : H → W → ℕ}
    (laws : FileLaws fw file cursor) where
  advance-Ends :
      (s : RebootState) (held : Option Bytes) (w : W)
      → IsStored fw held s
      → s.active ≡ 1
      → Ends
          (λ t w'. Continues fw held t (file w'))
          (λ status w'. efi_error status ≡ false → IsDisarmed fw (file w'))
          (advance fw (next_state s) w)
  unfolding advance
  advance-Ends s held w stored on =
      Ends-if (leb s.target_resets (s.completed_resets + 1)) _ _ w
        (λ _.
          Ends-bind _ _ w (save_state-Leaves laws (stopped_state (next_state s)) w) λ saved w1 left.
            Ends-if (efi_error saved) _ _ w1 (λ e. report-Ends laws _ saved w1 (λ w2 _ good. cc))
              λ e. report-Ends laws _ success w1 λ w2 k2 _.
                stopped-IsDisarmed laws (file w2) (next_state s)
                  (IsWellFormed-finished s (IsStored-IsWellFormed held s stored) on) (k2 ∙ left e))
        λ more. Ends-bind _ _ w (save_state-Leaves laws (next_state s) w) λ saved w1 left.
          Ends-if (efi_error saved) _ _ w1 (λ e. report-Ends laws _ saved w1 (λ w2 _ good. cc))
            λ e. Ends-bind_keep file (fw.print _) _ w1 (laws.print_keeps _) λ _ w2 k2.
              Ends-mono
                (reset_system_for_test-Ends laws (next_state s) w2 λ w3 k3. record {
                  before = s;
                  stored = stored;
                  active = on;
                  more = ground (arith, more);
                  kind = refl;
                  saved = k3 ∙ k2 ∙ left e;
                })
                (λ _ _ k. k) λ status w3 bad good. cc

  -- With firmware that keeps the file laws: `ContinueTest` asks for a reset only with an active,
  -- accepted state in the file that has more than one cycle left, with its reset type, and after
  -- the file holds the state with one cycle more; where it returns success, no active state is
  -- left.
  pub continue_test-Ends :
      (w : W)
      → Ends
          (λ t w'. Continues fw (file w) t (file w'))
          (λ status w'. efi_error status ≡ false → IsDisarmed fw (file w'))
          (continue_test fw w)
  unfolding continue_test
  continue_test-Ends w =
      Ends-bind _ _ w (load_state-Loads laws w) λ (status, s) w1 (keep, missing, stored).
        Ends-if (is_not_found status) _ _ w1
          (λ e.
            report-Ends laws _ success w1
              λ w2 k2 _. none-IsDisarmed laws (file w2) (k2 ∙ keep ∙ missing e))
          λ _.
            Ends-if (efi_error status) _ _ w1 (λ e. report-Ends laws _ status w1 (λ _ _ good. cc))
              λ e.
                Ends-if (s.active == 0) _ _ w1
                  (λ off. report-Ends laws _ success w1 λ w2 k2 _.
                    rw (k2 ∙ keep)
                      (inactive-IsDisarmed laws (file w) s (stored e) (ground (arith, off))))
                  λ on.
                    let v = IsStored-IsWellFormed (file w) s (stored e) in
                    rw (increment s (small_count s v))
                      (advance-Ends s (file w) w1 (stored e) (active_one s v on))
