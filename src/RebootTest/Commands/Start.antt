-- ===== src/RebootTest/Commands/Start.antt =====
-- Applications/RebootTest/RebootTest.c: `StartTest`, alone and followed by boots that continue.
use uefi_tools_pkg.Base.{
  ℕ, ◌+◌, ◌≤◌, ◌≡◌, refl, ◌∙◌, ap, ◌⊎◌, Option, none, some, List, [], true, arith, length, get_or,
}
use uefi_tools_pkg.Efi.{efi_error, error, invalid_parameter}
use uefi_tools_pkg.Action.{restarted}
use uefi_tools_pkg.Action.Ends.{Ends, Ends-if, Ends-bind, Ends-bind_keep}
use uefi_tools_pkg.RebootTest.State.{RebootState, Bytes, encode, max_count, max_delay}
use uefi_tools_pkg.RebootTest.Text.{Text, parse_uint32}
use uefi_tools_pkg.RebootTest.Firmware.{Firmware}
use uefi_tools_pkg.RebootTest.Firmware.Laws.{FileLaws}
use uefi_tools_pkg.RebootTest.Store.Check.{seal}
use uefi_tools_pkg.RebootTest.Store.Save.{save_state-Leaves}
use uefi_tools_pkg.RebootTest.Commands.{
  fresh_state, start_count, start_type, start_delay, arm, start_with, start_test,
}
use uefi_tools_pkg.RebootTest.Commands.Reset.{report-Ends, reset_system_for_test-Ends}
use uefi_tools_pkg.RebootTest.Commands.Stored.{IsWellFormed}
use uefi_tools_pkg.RebootTest.Commands.Campaign.{
  Boots, Boots-bounded, Ends-restarted, remaining, remaining_saved,
}

-- the state that `StartTest` saves
abbrev pub start_state : ℕ → ℕ → ℕ → RebootState
start_state count kind delay = record (fresh_state count) {
  reset_type = kind;
  delay_seconds = delay;
}

-- what `StartTest` may ask for a reset of type `t` with, where the file then holds `kept`
pub record Starts {W H : Type 0} (fw : Firmware W H) (argv : List Text) (t : ℕ)
    (kept : Option Bytes) : Type 0 where
  pub count : ℕ
  pub delay : ℕ
  pub enough : 3 ≤ length argv
  pub count_given : parse_uint32 (get_or argv 2 []) ≡ some count
  pub type_given : start_type argv ≡ some t
  pub delay_given : start_delay argv ≡ some delay
  pub well_formed : IsWellFormed (start_state count t delay)
  pub saved : kept ≡ some (encode (seal fw (start_state count t delay)))

start_count-some :
    (argv : List Text) (count : ℕ)
    → start_count argv ≡ some count
    → (3 ≤ length argv)
      × (parse_uint32 (get_or argv 2 []) ≡ some count)
      × (1 ≤ count)
      × (count ≤ max_count)
unfolding start_count
start_count-some argv count h = ground arith

start_type-some : (argv : List Text) (t : ℕ) → start_type argv ≡ some t → (t ≡ 0) ⊎ (t ≡ 1)
unfolding start_type
start_type-some argv t h = ground arith

start_delay-some :
    (argv : List Text) (delay : ℕ)
    → start_delay argv ≡ some delay
    → (1 ≤ delay) × (delay ≤ max_delay)
unfolding start_delay
start_delay-some argv delay h = ground arith

start_state-IsWellFormed :
    (count kind delay : ℕ)
    → (1 ≤ count) × (count ≤ max_count)
    → (kind ≡ 0) ⊎ (kind ≡ 1)
    → (1 ≤ delay) × (delay ≤ max_delay)
    → IsWellFormed (start_state count kind delay)
start_state-IsWellFormed count kind delay c k d = ground arith

module _ {W H : Type 0} {fw : Firmware W H} {file : W → Option Bytes} {cursor : H → W → ℕ}
    (laws : FileLaws fw file cursor) where
  arm-Ends :
      {K : ℕ → W → Type 0} (s : RebootState) (w : W)
      → ((w' : W) → file w' ≡ some (encode (seal fw s)) → K s.reset_type w')
      → Ends K (λ status _. efi_error status ≡ true) (arm fw s w)
  unfolding arm
  arm-Ends s w k = Ends-bind _ _ w (save_state-Leaves laws s w) λ saved w1 left.
      Ends-if (efi_error saved) _ _ w1 (λ e. report-Ends laws _ saved w1 (λ _ _. e))
        λ e.
          Ends-bind_keep file (fw.print _) _ w1 (laws.print_keeps _)
            λ _ w2 k2. reset_system_for_test-Ends laws s w2 λ w3 k3. k w3 (k3 ∙ k2 ∙ left e)

  start_with-Ends :
      (argv : List Text) (w : W) (count kind delay : Option ℕ)
      → start_count argv ≡ count
      → start_type argv ≡ kind
      → start_delay argv ≡ delay
      → Ends
          (λ t w'. Starts fw argv t (file w'))
          (λ status _. efi_error status ≡ true)
          (start_with fw count kind delay w)
  unfolding start_with
  start_with-Ends argv w none kind delay c k d =
      report-Ends laws _ (error invalid_parameter) w (λ _ _. refl)
  start_with-Ends argv w (some count) none delay c k d =
      report-Ends laws _ (error invalid_parameter) w (λ _ _. refl)
  start_with-Ends argv w (some count) (some kind) none c k d =
      report-Ends laws _ (error invalid_parameter) w (λ _ _. refl)
  start_with-Ends argv w (some count) (some kind) (some delay) c k d =
      let (enough, given, low, high) = start_count-some argv count c in
      arm-Ends (start_state count kind delay) w λ w' saved. record {
        count = count;
        delay = delay;
        enough = enough;
        count_given = given;
        type_given = k;
        delay_given = d;
        well_formed =
            start_state-IsWellFormed count kind delay (low, high) (start_type-some argv kind k)
              (start_delay-some argv delay d);
        saved = saved;
      }

  -- With firmware that keeps the file laws: `StartTest` asks for a reset only with a parsed count,
  -- a known type and a delay in range, and after the file holds the well-formed state of those; it
  -- never returns success.
  pub start_test-Ends :
      (argv : List Text) (w : W)
      → Ends
          (λ t w'. Starts fw argv t (file w'))
          (λ status _. efi_error status ≡ true)
          (start_test fw argv w)
  unfolding start_test
  start_test-Ends argv w = start_with-Ends argv w _ _ _ refl refl refl

  -- With firmware that keeps the file laws: a test that was started with a count resets the machine
  -- at most that often, once by `start` and then in the boots that continue, where nothing else
  -- changes the file in between.
  pub start-Boots-bounded :
      (argv : List Text) (w : W) {n t count : ℕ} {w1 w2 : W}
      → start_test fw argv w ≡ restarted t w1
      → file w2 ≡ file w1
      → parse_uint32 (get_or argv 2 []) ≡ some count
      → Boots fw file n w2
      → n + 1 ≤ count
  start-Boots-bounded argv w {t} {count} {w1} e same given boots =
      let s = Ends-restarted (λ t w1. Starts fw argv t (file w1)) t w1 (start_test-Ends argv w) e in
      let left =
        remaining_saved laws (file w1) (start_state s.count t s.delay) s.well_formed s.saved in
      let counts : s.count ≡ count = cc (s.count_given, given) in
      let some_count : 1 ≤ s.count = s.well_formed.in_range.some_target in
      omega (arith, Boots-bounded laws boots, left, counts, some_count, ap remaining same)
