-- ===== src/VarEditor/Run/Bounds.antt =====
-- Applications/RuntimeVarEditor/RuntimeVarEditor.c: the indices that `RveRun` keeps.
use uefi_tools_pkg.Base.{
  ℕ, zero, suc, ◌+◌, ◌<◌, ◌≤◌, ◌≡◌, refl, ◌≢◌, inl, inr, ap, sym, arith, Bool-cases, by_test, subst,
  true, false, ◌&&◌, not, Option, none, some, List, [], ◌∷◌, ltb, leb, ◌==◌, if◌then◌else◌, length,
  get_elem?,
}
use uefi_tools_pkg.VarEditor.Run.{
  Shown, listing, details_of, Browser, select, unmoved, clamp, settle, scroll, drawn, draw, Moved,
  move, hex_page_bytes, scan_up, scan_down, scan_left, scan_right, scan_page_up, scan_page_down,
}

-- the selected variable is in the array, and in the rows that are shown
abbrev pub IsSettled : ℕ → Browser → Type 0
IsSettled rows b =
    (length b.variables ≡ 0 → (b.selected ≡ 0) × (b.first ≡ 0) × (b.detail ≡ false))
    × (0 < length b.variables → b.selected < length b.variables)
    × (b.first ≤ b.selected)
    × (0 < rows → b.selected < b.first + rows)

pub scroll-shows :
    (rows selected first : ℕ)
    → (scroll rows selected first ≤ selected)
      × (0 < rows → selected < scroll rows selected first + rows)
unfolding scroll
scroll-shows rows selected first = (ground arith, λ h. ground (arith, h))

scroll-zero : (rows first : ℕ) → scroll rows 0 first ≡ 0
unfolding scroll
scroll-zero rows first = ground arith

pub scroll_fixed :
    (rows selected first : ℕ)
    → first ≤ selected
    → (0 < rows → selected < first + rows)
    → scroll rows selected first ≡ first
unfolding scroll
scroll_fixed rows selected first h k = ground (arith, h, k)

pub clamp-within :
    (b : Browser)
    → (length b.variables ≡ 0 → ((clamp b).selected ≡ 0) × ((clamp b).detail ≡ false))
      × (0 < length b.variables → (clamp b).selected < length b.variables)
      × ((clamp b).variables ≡ b.variables)
unfolding clamp
clamp-within b = elim (Bool-cases (length b.variables == 0)) [
  | inl e ↦ rw e (λ h. (refl, refl), λ h. ground (arith, h, e), refl)
  | inr e ↦ elim (Bool-cases (leb (length b.variables) b.selected)) [
    | inl f ↦ rw (e, f) (λ h. ground (arith, h, e), λ h. ground (arith, h, e), refl)
    | inr f ↦ rw (e, f) (λ h. ground (arith, h, e), λ h. ground (arith, h, f), refl)
  ]
]

pub clamp_inside : (b : Browser) → b.selected < length b.variables → clamp b ≡ b
unfolding clamp
clamp_inside b h =
    by_test (λ (c : Browser). c ≡ b) (length b.variables == 0) (λ e. absurd (ground (arith, e, h)))
      (λ _.
        by_test (λ (c : Browser). c ≡ b) (leb (length b.variables) b.selected)
          (λ e. absurd (ground (arith, e, h))) (λ _. refl))

pub settle-IsSettled : (rows : ℕ) (b : Browser) → IsSettled rows (settle rows b)
unfolding settle
settle-IsSettled rows b =
    let (empty, full, same) = clamp-within b in
    let shows = scroll-shows rows (clamp b).selected (clamp b).first in
    let lengths = ap length same in
    (
      λ h.
          let (at_first, in_list) = empty (omega (arith, h, lengths)) in
          (at_first, omega (arith, at_first, shows.0), in_list),
      λ h. let inside = full (omega (arith, h, lengths)) in omega (arith, inside, lengths),
      shows.0,
      shows.1,
    )

pub get_elem?-some {ℓ} :
    {A : Type ℓ} (xs : List A) (i : ℕ) → i < length xs → (x : A) × (get_elem? xs i ≡ some x)
get_elem?-some [] i h = absurd (omega (arith, h))
get_elem?-some (x ∷ xs) zero h = (x, refl)
get_elem?-some (x ∷ xs) (suc i) h = get_elem?-some xs i (omega (arith, h))

-- what `draw` leaves: the list or the details that it has drawn, or what was there
pub data IsDrawn (rows : ℕ) (b : Browser) : Option Browser → Type 0 where
  kept : b.full_redraw ≡ false → IsDrawn rows b (some b)
  redrawn :
      {shown : Shown}
      → drawn rows b ≡ some shown
      → IsDrawn rows b (some (record b { shown = shown; full_redraw = false }))

drawn-some :
    (rows : ℕ) (b : Browser) → IsSettled rows b → (shown : Shown) × (drawn rows b ≡ some shown)
unfolding drawn
drawn-some rows b settled = elim (Bool-cases (length b.variables == 0)) [
  | inl e ↦ rw e (listing rows b.variables b.selected b.first b.message, refl)
  | inr e ↦
      let some_left = settled.1 (ground (arith, e)) in
      let (v, f) = get_elem?-some b.variables b.selected some_left in
      rw (e, f)
        (
          (if b.detail
              then details_of v b.detail_offset b.message
              else listing rows b.variables b.selected b.first b.message),
          refl,
        )
]

pub draw-IsDrawn : (rows : ℕ) (b : Browser) → IsSettled rows b → IsDrawn rows b (draw rows b)
unfolding draw
draw-IsDrawn rows b settled =
    let (shown, f) = drawn-some rows b settled in
    by_test (IsDrawn rows b) b.full_redraw
      (λ e.
        subst
          (λ (d : Option Shown). IsDrawn rows b (elim d [
            | none ↦ none
            | some shown ↦ some (record b { shown = shown; full_redraw = false })
          ]))
          (sym f) (redrawn f))
      kept

-- what the switch on the scan code does to a browser with variables
pub data IsMoved (b : Browser) : Moved → Type 0 where
  stays : IsMoved b (unmoved b)
  selects :
      {s : ℕ}
      → s < length b.variables
      → s ≢ b.selected
      → IsMoved b (record { to = select b s; selection_key = not b.detail })
  redraws :
      {b' : Browser}
      → b'.variables ≡ b.variables
      → b'.selected < length b.variables
      → b'.full_redraw ≡ true
      → IsMoved b (unmoved b')

pub move-IsMoved :
    (rows scan data_size : ℕ) (b : Browser)
    → b.selected < length b.variables
    → IsMoved b (move rows scan data_size b)
unfolding move
move-IsMoved rows scan data_size b h =
    by_test (IsMoved b) (scan == scan_up)
      (λ _.
        by_test (IsMoved b) (ltb 0 b.selected) (λ e. selects (omega (arith, h)) (ground (arith, e)))
          (λ _. stays))
      (λ _.
        by_test (IsMoved b) (scan == scan_down)
          (λ _.
            by_test (IsMoved b) (ltb (b.selected + 1) (length b.variables))
              (λ e. selects (ground (arith, e)) (ground arith)) (λ _. stays))
          (λ _.
            by_test (IsMoved b) (scan == scan_page_up) (λ _. redraws refl (ground (arith, h)) refl)
              (λ _.
                by_test (IsMoved b) (scan == scan_page_down)
                  (λ _. redraws refl (ground (arith, h)) refl)
                  (λ _.
                    by_test (IsMoved b) (scan == scan_left)
                      (λ _.
                        by_test (IsMoved b) (b.detail && leb hex_page_bytes b.detail_offset)
                          (λ _. redraws refl h refl) (λ _. stays))
                      (λ _.
                        by_test (IsMoved b) (scan == scan_right)
                          (λ _.
                            by_test (IsMoved b)
                              (b.detail && ltb (b.detail_offset + hex_page_bytes) data_size)
                              (λ _. redraws refl h refl) (λ _. stays))
                          (λ _. stays))))))
