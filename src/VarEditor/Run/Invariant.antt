-- ===== src/VarEditor/Run/Invariant.antt =====
-- Applications/RuntimeVarEditor/RuntimeVarEditor.c: what `RveRun` shows while it waits for a key.
use uefi_tools_pkg.Base.{
  ℕ, ◌+◌, ◌≤◌, ◌<◌, ◌≡◌, refl, inl, inr, ap, sym, ◌∙◌, arith, by_test, subst, Bool-cases, true,
  false, ◌&&◌, not, Option, none, some, List, leb, ◌==◌, if◌then◌else◌, length,
}
use uefi_tools_pkg.VarEditor.Variable.{Variable}
use uefi_tools_pkg.VarEditor.Load.{Note}
use uefi_tools_pkg.VarEditor.Run.{
  Shown, listing, redraw, details_of, Browser, clamp, settle, scroll, drawn, draw, Moved, Followed,
  fast, slow, follow,
}
use uefi_tools_pkg.VarEditor.Run.Redraw.{redraw-listing}
use uefi_tools_pkg.VarEditor.Run.Bounds.{
  IsSettled, settle-IsSettled, scroll-shows, scroll_fixed, get_elem?-some, IsDrawn, kept, redrawn,
  draw-IsDrawn, clamp-within, IsMoved, stays, selects, redraws,
}

-- the list is shown as it is, perhaps with an older message
abbrev pub ShowsList : ℕ → Browser → Type 0
ShowsList rows b =
    (note : Option Note) × (b.shown ≡ listing rows b.variables b.selected b.first note)

-- Between two rounds: a redraw is due, or the details are open, or the list is shown as it is.
pub data IsCurrent (rows : ℕ) (b : Browser) : Type 0 where
  due : b.full_redraw ≡ true → IsCurrent rows b
  in_detail : 0 < length b.variables → b.detail ≡ true → IsCurrent rows b
  listed : IsSettled rows b → ShowsList rows b → IsCurrent rows b

-- the same while it waits: the list is shown as it is, unless the details are open
abbrev pub IsWaiting : ℕ → Browser → Type 0
IsWaiting rows b = IsSettled rows b × (b.detail ≡ false → ShowsList rows b)

-- the round goes on with the same variables
pub data IsFollowed (rows : ℕ) (variables : List Variable) : Followed → Type 0 where
  at_once :
      {b : Browser}
      → b.variables ≡ variables
      → IsCurrent rows b
      → IsFollowed rows variables (fast b)
  slowly :
      {b : Browser}
      → b.variables ≡ variables
      → b.selected < length b.variables
      → IsCurrent rows b
      → IsFollowed rows variables (slow b)

pub IsWaiting-IsCurrent : (rows : ℕ) (b : Browser) → IsWaiting rows b → IsCurrent rows b
IsWaiting-IsCurrent rows b (settled, shows) = elim (Bool-cases b.detail) [
  | inl e ↦ in_detail (ground (arith, settled.0, e)) e
  | inr e ↦ listed settled (shows e)
]

-- the redraw of two rows, where the list did not scroll
redraw-ShowsList :
    (rows s first : ℕ) (b : Browser)
    → b.selected < length b.variables
    → IsSettled rows b
    → ShowsList rows b
    → (first == b.first) ≡ true
    → first ≤ s
    → (0 < rows → s < first + rows)
    → redraw rows b.variables b.selected s first b.message b.shown
      ≡ listing rows b.variables s first b.message
redraw-ShowsList rows s first b h (_, _, above, below) (last, shows) same new_above new_below =
    let e : first ≡ b.first = ground (arith, same) in
    (λ i. redraw rows b.variables b.selected s first b.message (shows i))
    ∙ (λ i.
        redraw rows b.variables b.selected s first b.message
          (listing rows b.variables b.selected (sym e i) last))
    ∙ redraw-listing rows b.variables b.selected s first last b.message h (omega (arith, above, e))
        (λ some_rows. let k = below some_rows in omega (arith, k, e)) new_above new_below

pub follow-IsFollowed :
    (rows : ℕ) (b : Browser) (m : Moved)
    → b.selected < length b.variables
    → IsWaiting rows b
    → IsMoved b m
    → IsFollowed rows b.variables (follow rows b.selected m)
unfolding follow
follow-IsFollowed rows b m h ready stays = slowly refl h (IsWaiting-IsCurrent rows b ready)
follow-IsFollowed rows b m h ready (redraws same inside due_now) =
    let lengths = ap length same in slowly same (omega (arith, inside, lengths)) (due due_now)
follow-IsFollowed rows b m h ready (selects {s} inside new) =
    let shows = scroll-shows rows s b.first in
    by_test (IsFollowed rows b.variables) (not b.detail && not (s == b.selected))
      (λ _.
        by_test (IsFollowed rows b.variables) (scroll rows s b.first == b.first && not b.detail)
          (λ e. at_once refl (
            listed (λ empty. absurd (omega (arith, empty, inside)), λ _. inside, shows.0, shows.1)
              (
                b.message,
                redraw-ShowsList rows s (scroll rows s b.first) b h ready.0
                    (ready.1 (ground (arith, e))) (ground (arith, e)) shows.0 shows.1,
              )))
          (λ _. slowly refl inside (due refl)))
      (λ e. slowly refl inside (in_detail (omega (arith, inside)) (ground (arith, e, new))))

pub IsWaiting-message :
    (rows : ℕ) (b : Browser) → IsWaiting rows b → IsWaiting rows (record b { message = none })
IsWaiting-message rows b h = h

-- a settled browser stays as it is
settle_fixed : (rows : ℕ) (b : Browser) → IsSettled rows b → settle rows b ≡ b
unfolding settle clamp
settle_fixed rows b (empty, full, above, below) =
    let same =
      by_test (λ (c : Browser). c ≡ b) (length b.variables == 0)
        (λ e.
          let (p, q, r) = empty (ground (arith, e)) in
          λ i. record b { selected = sym p i; first = sym q i; detail = sym r i })
        (λ e.
          by_test (λ (c : Browser). c ≡ b) (leb (length b.variables) b.selected)
            (λ f. absurd (ground (arith, e, f, full))) (λ _. refl)) in
    (λ i. record (same i) { first = scroll rows (same i).selected (same i).first })
    ∙ (λ i. record b { first = scroll_fixed rows b.selected b.first above below i })

settle-keeps :
    (rows : ℕ) (b : Browser)
    → ((settle rows b).full_redraw ≡ b.full_redraw)
      × (0 < length b.variables → (settle rows b).detail ≡ b.detail)
unfolding settle clamp
settle-keeps rows b =
    by_test
      (λ (c : Browser).
        (c.full_redraw ≡ b.full_redraw) × (0 < length b.variables → c.detail ≡ b.detail))
      (length b.variables == 0) (λ e. (refl, λ h. absurd (ground (arith, e, h))))
      (λ _.
        by_test
          (λ (c : Browser).
            (c.full_redraw ≡ b.full_redraw) × (0 < length b.variables → c.detail ≡ b.detail))
          (leb (length b.variables) b.selected) (λ _. (refl, λ h. refl)) (λ _. (refl, λ h. refl)))

settle-ShowsList :
    (rows : ℕ) (b : Browser)
    → IsCurrent rows b
    → (settle rows b).full_redraw ≡ false
    → (settle rows b).detail ≡ false
    → ShowsList rows (settle rows b)
settle-ShowsList rows b (due h) e f = absurd (cc ((settle-keeps rows b).0, h, e))
settle-ShowsList rows b (in_detail h k) e f = absurd (cc ((settle-keeps rows b).1 h, k, f))
settle-ShowsList rows b (listed settled shows) e f =
    subst (ShowsList rows) (sym (settle_fixed rows b settled)) shows

drawn_list :
    (rows : ℕ) (b : Browser) (shown : Shown)
    → IsSettled rows b
    → b.detail ≡ false
    → drawn rows b ≡ some shown
    → shown ≡ listing rows b.variables b.selected b.first b.message
unfolding drawn
drawn_list rows b shown settled h e =
    let listed = listing rows b.variables b.selected b.first b.message in
    let drawing =
      by_test (λ (o : Option Shown). o ≡ some listed) (length b.variables == 0) (λ _. refl)
        (λ f.
          let (v, g) = get_elem?-some b.variables b.selected (settled.1 (ground (arith, f))) in
          subst
            (λ (o : Option Variable).
              elim o [
                | none ↦ none
                | some v ↦
                    some (if b.detail then details_of v b.detail_offset b.message else listed)
              ]
              ≡ some listed)
            (sym g) (λ i. some (if h i then details_of v b.detail_offset b.message else listed))) in
    cc (drawing, e)

-- what a round has when it waits for a key
abbrev pub IsReady : ℕ → List Variable → Option Browser → Type 0
IsReady rows variables none = ⊥
IsReady rows variables (some b) = IsWaiting rows b × IsCurrent rows b × (b.variables ≡ variables)

IsDrawn-IsReady :
    (rows : ℕ) (b : Browser) (o : Option Browser)
    → IsSettled rows b
    → (b.full_redraw ≡ false → b.detail ≡ false → ShowsList rows b)
    → IsDrawn rows b o
    → IsReady rows b.variables o
IsDrawn-IsReady rows b o settled shows (kept e) =
    let ready : IsWaiting rows b = (settled, shows e) in
    (ready, IsWaiting-IsCurrent rows b ready, refl)
IsDrawn-IsReady rows b o settled shows (redrawn {shown} f) =
    let b' = record b { shown = shown; full_redraw = false } in
    let ready : IsWaiting rows b' =
      (settled, λ e. (b.message, drawn_list rows b shown settled e f)) in
    (ready, IsWaiting-IsCurrent rows b' ready, refl)

pub draw-IsReady :
    (rows : ℕ) (b : Browser)
    → IsCurrent rows b
    → IsReady rows b.variables (draw rows (settle rows b))
unfolding settle
draw-IsReady rows b current =
    let settled = settle-IsSettled rows b in
    subst (λ (l : List Variable). IsReady rows l (draw rows (settle rows b))) (clamp-within b).2
      (IsDrawn-IsReady rows (settle rows b) (draw rows (settle rows b)) settled
        (settle-ShowsList rows b current) (draw-IsDrawn rows (settle rows b) settled))
