-- ===== src/RebootTest/Commands/Stored.antt =====
-- Applications/RebootTest/RebootTest.c: well-formed states, and what is loaded of one that was saved.
use uefi_tools_pkg.Base.{ℕ, ◌+◌, ◌<◌, ◌≡◌, ◌∙◌, sym, ap, Option, none, some, arith}
use uefi_tools_pkg.RebootTest.State.{
  RebootState, Bytes, state_signature, state_version, encode, decode,
}
use uefi_tools_pkg.RebootTest.State.Codec.{FitsFields, InRange, decode-encode}
use uefi_tools_pkg.RebootTest.Firmware.{Firmware}
use uefi_tools_pkg.RebootTest.Firmware.Laws.{FileLaws}
use uefi_tools_pkg.RebootTest.Store.{calculate_state_crc32}
use uefi_tools_pkg.RebootTest.Store.Check.{seal}
use uefi_tools_pkg.RebootTest.Store.Load.{IsStored}

-- what the program itself puts into a state
pub record IsWellFormed (s : RebootState) : Type 0 where
  pub right_signature : s.signature ≡ state_signature
  pub right_version : s.version ≡ state_version
  pub in_range : InRange s

-- a state after one more cycle
abbrev pub next_state : RebootState → RebootState
next_state s = record s { completed_resets = s.completed_resets + 1 }

abbrev pub stopped_state : RebootState → RebootState
stopped_state s = record s { active = 0 }

pub IsWellFormed-stopped : (s : RebootState) → IsWellFormed s → IsWellFormed (stopped_state s)
IsWellFormed-stopped s v = ground arith

pub IsWellFormed-next :
    (s : RebootState)
    → IsWellFormed s
    → s.completed_resets + 1 < s.target_resets
    → IsWellFormed (next_state s)
IsWellFormed-next s v h = ground arith

pub IsWellFormed-finished :
    (s : RebootState) → IsWellFormed s → s.active ≡ 1 → IsWellFormed (stopped_state (next_state s))
IsWellFormed-finished s v h = ground arith

module _ {W H : Type 0} {fw : Firmware W H} where
  pub IsStored-IsWellFormed :
      (held : Option Bytes) (s : RebootState) → IsStored fw held s → IsWellFormed s
  IsStored-IsWellFormed held s stored = record {
    right_signature = stored.accepted.right_signature;
    right_version = stored.accepted.right_version;
    in_range = stored.accepted.in_range;
  }

module _ {W H : Type 0} {fw : Firmware W H} {file : W → Option Bytes} {cursor : H → W → ℕ}
    (laws : FileLaws fw file cursor) where
  seal-FitsFields : (s : RebootState) → IsWellFormed s → FitsFields (seal fw s)
  unfolding calculate_state_crc32
  seal-FitsFields s v = ground (arith, laws.crc32-lt (encode (record s { crc32 = 0 })))

  pub decode-encode-seal :
      (t : RebootState) → IsWellFormed t → decode (encode (seal fw t)) ≡ seal fw t
  decode-encode-seal t v = decode-encode (seal fw t) (seal-FitsFields t v)

  -- Where the file holds the bytes of a sealed, well-formed state, that state is what it stores.
  pub IsStored-eq_seal :
      (held : Option Bytes) (s t : RebootState)
      → IsWellFormed t
      → held ≡ some (encode (seal fw t))
      → IsStored fw held s
      → s ≡ seal fw t
  IsStored-eq_seal held s t v h stored =
      let same : stored.bytes ≡ encode (seal fw t) = cc (stored.on_volume, h) in
      stored.read_back ∙ ap decode same ∙ decode-encode-seal t v

-- No active state is stored: `continue` has nothing to do.
abbrev pub IsDisarmed : {W H : Type 0} → Firmware W H → Option Bytes → Type 0
IsDisarmed fw held = (s : RebootState) → IsStored fw held s → s.active ≡ 0

module _ {W H : Type 0} {fw : Firmware W H} {file : W → Option Bytes} {cursor : H → W → ℕ}
    (laws : FileLaws fw file cursor) where
  pub none-IsDisarmed : (held : Option Bytes) → held ≡ none → IsDisarmed fw held
  none-IsDisarmed held h s stored = cc (h, stored.on_volume)

  -- Where a stopped state was saved, nothing active is stored.
  pub stopped-IsDisarmed :
      (held : Option Bytes) (t : RebootState)
      → IsWellFormed (stopped_state t)
      → held ≡ some (encode (seal fw (stopped_state t)))
      → IsDisarmed fw held
  stopped-IsDisarmed held t v h s stored =
      ap (λ (r : RebootState). r.active) (IsStored-eq_seal laws held s (stopped_state t) v h stored)

  pub inactive-IsDisarmed :
      (held : Option Bytes) (t : RebootState)
      → IsStored fw held t
      → t.active ≡ 0
      → IsDisarmed fw held
  inactive-IsDisarmed held t stored off s stored' =
      let same : stored.bytes ≡ stored'.bytes = cc (stored.on_volume, stored'.on_volume) in
      let read : s ≡ t = stored'.read_back ∙ ap decode (sym same) ∙ sym stored.read_back in
      ap (λ (r : RebootState). r.active) read ∙ off
