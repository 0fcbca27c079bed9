-- ===== src/RebootTest/Store/Load.antt =====
-- Applications/RebootTest/RebootTest.c: what a successful `LoadState` has read.
use uefi_tools_pkg.Base.{
  none, ℕ, ◌+◌, ◌≡◌, refl, ◌∙◌, sym, ap, Option, some, true, false, not, ◌==◌, ◌&&◌, arith, length,
  take, drop, length-take, length-drop, take-length,
}
use uefi_tools_pkg.Efi.{efi_error, is_not_found, Status}
use uefi_tools_pkg.Action.Ends.{Ends, Ends-pure, Ends-if, Ends-bind, Ends-bind_call, Ends-bind_keep}
use uefi_tools_pkg.RebootTest.State.{RebootState, Bytes, state_size, decode}
use uefi_tools_pkg.RebootTest.Firmware.{Firmware, OpenMode}
use uefi_tools_pkg.RebootTest.Firmware.Laws.{FileLaws}
use uefi_tools_pkg.RebootTest.Store.{reject_extra, read_state, accept, load_opened, load_state}
use uefi_tools_pkg.RebootTest.Store.Check.{
  IsAccepted, check_state-IsAccepted, check_state_found, open_state_root-keeps,
}

-- The volume holds exactly one accepted state, `s`.
pub record IsStored {W H : Type 0} (fw : Firmware W H) (held : Option Bytes) (s : RebootState)
    : Type 0 where
  pub bytes : Bytes
  pub on_volume : held ≡ some bytes
  pub size : length bytes ≡ state_size
  pub read_back : s ≡ decode bytes
  pub accepted : IsAccepted fw s

-- two reads with nothing left for the second have read the whole file
read_whole :
    (bytes got extra : Bytes)
    → got ≡ take 24 bytes
    → length got ≡ 24
    → extra ≡ take 1 (drop 24 bytes)
    → length extra ≡ 0
    → (length bytes ≡ 24) × (got ≡ bytes)
read_whole bytes got extra g n e z =
    let whole : length bytes ≡ 24 = omega (
      arith,
      length-take 24 bytes,
      length-take 1 (drop 24 bytes),
      length-drop 24 bytes,
      ap length g,
      ap length e,
    ) in
    (whole, g ∙ take-length 24 bytes whole)

-- what the two reads of a file of these bytes leave
abbrev ReadsWhole : {W : Type 0} → (W → Option Bytes) → W → Bytes → Status × Bytes → W → Type 0
ReadsWhole file w bytes (status, got) w' =
    (file w' ≡ file w)
    × (is_not_found status ≡ false)
    × (efi_error status ≡ false → length got ≡ 24 → (length bytes ≡ 24) × (got ≡ bytes))

-- what `LoadState` leaves
abbrev pub Loads :
    {W H : Type 0} → Firmware W H → (W → Option Bytes) → W → Status × RebootState → W → Type 0
Loads fw file w (status, s) w' =
    (file w' ≡ file w)
    × (is_not_found status ≡ true → file w ≡ none)
    × (efi_error status ≡ false → IsStored fw (file w) s)

no_short_read :
    (status : Status) (n : ℕ)
    → (not (efi_error status) && (n == 24)) ≡ false
    → efi_error status ≡ false
    → n ≡ 24
    → ⊥
no_short_read status n c e h = ground arith

-- the branch where the first read gave 24 bytes: `c0` and `c1` are the positions of the reads
full_read :
    (status again : Status) (bytes got extra : Bytes) (c0 c1 c2 : ℕ)
    → (efi_error status ≡ false → (got ≡ take 24 (drop c0 bytes)) × (c1 ≡ c0 + length got))
    → (efi_error again ≡ false → (extra ≡ take 1 (drop c1 bytes)) × (c2 ≡ c1 + length extra))
    → c0 ≡ 0
    → (not (efi_error status) && (length got == 24)) ≡ true
    → efi_error (reject_extra again extra) ≡ false
    → (length bytes ≡ 24) × (got ≡ bytes)
full_read status again bytes got extra c0 c1 c2 first second start c good =
    let e0 : efi_error status ≡ false = ground arith in
    let size : length got ≡ 24 = ground arith in
    let e1 : efi_error again ≡ false = ground arith in
    let nothing : length extra ≡ 0 = ground arith in
    let c1_is : c1 ≡ 24 = omega (arith, (first e0).1) in
    read_whole bytes got extra (rw start at (first e0).0) size (rw c1_is at (second e1).0) nothing

reject_extra_found :
    (status : Status) (extra : Bytes)
    → is_not_found status ≡ false
    → is_not_found (reject_extra status extra) ≡ false
reject_extra_found status extra h = ground arith

module _ {W H : Type 0} (fw : Firmware W H) where
  -- the last tests of `LoadState`, on what the reads gave
  accept-IsStored :
      (bytes got : Bytes) (status : Status)
      → (efi_error status ≡ false → length got ≡ 24 → (length bytes ≡ 24) × (got ≡ bytes))
      → efi_error (accept fw status got) ≡ false
      → IsStored fw (some bytes) (decode got)
  unfolding accept
  accept-IsStored bytes got status whole good =
      let read : efi_error status ≡ false = ground arith in
      let size : length got ≡ 24 = ground arith in
      let (size', same) = whole read size in
      record {
        bytes = bytes;
        on_volume = refl;
        size = size';
        read_back = ap decode same;
        accepted = check_state-IsAccepted fw (decode got) (ground arith);
      }

module _ {W H : Type 0} {fw : Firmware W H} {file : W → Option Bytes} {cursor : H → W → ℕ}
    (laws : FileLaws fw file cursor) where
  accept_found :
      (got : Bytes) (status : Status)
      → is_not_found status ≡ false
      → is_not_found (accept fw status got) ≡ true
      → ⊥
  unfolding accept
  accept_found got status h missing = ground (arith, check_state_found laws (decode got))

module _ {W H : Type 0} {fw : Firmware W H} {file : W → Option Bytes} {cursor : H → W → ℕ}
    (laws : FileLaws fw file cursor) {K : ℕ → W → Type 0} where
  read_state-reads :
      (h : H) (w : W) (bytes : Bytes)
      → file w ≡ some bytes
      → cursor h w ≡ 0
      → Ends K (ReadsWhole file w bytes) (read_state fw h w)
  unfolding read_state
  read_state-reads h w bytes held start =
      let w1 = (fw.read_file h 24 w).1 in
      let got = (fw.read_file h 24 w).0.1 in
      let extra = (fw.read_file h 1 w1).0.1 in
      let keep1 = laws.read_keeps h 24 w in
      let keep2 = laws.read_keeps h 1 w1 in
      let first = laws.read_gives h 24 w bytes held in
      let second = laws.read_gives h 1 w1 bytes (keep1 ∙ held) in
      Ends-bind_call (fw.read_file h 24) _ w (
        Ends-if (not (efi_error (fw.read_file h 24 w).0.0) && (length got == 24)) _ _ w1
          (λ c. Ends-bind_call (fw.read_file h 1) _ w1 (
            Ends-pure (reject_extra (fw.read_file h 1 w1).0.0 extra, got) _
              (
                keep2 ∙ keep1,
                reject_extra_found _ extra (laws.read_found h 1 w1),
                λ good _. full_read _ _ bytes got extra _ _ _ first second start c good,
              )))
          (λ c.
            Ends-pure (fw.read_file h 24 w).0 w1
              (keep1, laws.read_found h 24 w, λ e n. absurd (no_short_read _ _ c e n))))

  load_opened-Loads :
      (root h : H) (w w2 : W) (bytes : Bytes)
      → file w ≡ some bytes
      → file w2 ≡ file w
      → cursor h w2 ≡ 0
      → Ends K (Loads fw file w) (load_opened fw root h w2)
  unfolding load_opened
  load_opened-Loads root h w w2 bytes held keep start =
      Ends-bind _ _ w2 (read_state-reads h w2 bytes (keep ∙ held) start) λ (status, got) w3 r.
        Ends-bind_keep file (fw.close_file h) _ w3 (laws.close_keeps h) λ _ w4 k4.
          Ends-bind_keep file (fw.close_file root) _ w4 (laws.close_keeps root) λ _ w5 k5.
            Ends-pure _ w5 (
              k5 ∙ k4 ∙ r.0 ∙ keep,
              λ missing. absurd (accept_found laws got status r.1 missing),
              λ good. rw held (accept-IsStored fw bytes got status r.2 good),
            )

  -- With firmware that keeps the file laws: `LoadState` leaves the file alone, never resets the
  -- machine, returns NOT_FOUND only where there is no file, and succeeds only on an accepted state
  -- that the file holds.
  pub load_state-Loads : (w : W) → Ends K (Loads fw file w) (load_state fw w)
  unfolding load_state
  load_state-Loads w = Ends-bind _ _ w (open_state_root-keeps laws w) λ (opened, root) w1 k1.
      Ends-if (efi_error opened) _ _ w1 (λ e. Ends-pure _ w1 (k1.0, λ missing. cc, λ good. cc))
        λ _.
          let opening = fw.open_file root OpenMode.read w1 in
          let keep = laws.open_read_keeps root w1 ∙ k1.0 in
          Ends-bind_call (fw.open_file root OpenMode.read) _ w1 (
            Ends-if (efi_error opening.0.0) _ _ opening.1
              (λ e. Ends-bind_keep file (fw.close_file root) _ _ (laws.close_keeps root) λ _ w3 k3.
                Ends-pure _ w3 (
                  k3 ∙ keep,
                  λ missing. sym k1.0 ∙ laws.open_read_missing root w1 missing,
                  λ good. cc,
                ))
              λ e.
                let (bytes, held, start) = laws.open_found root w1 e in
                load_opened-Loads root opening.0.1 w opening.1 bytes (sym k1.0 ∙ held) keep start)
