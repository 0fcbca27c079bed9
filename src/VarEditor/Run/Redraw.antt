-- ===== src/VarEditor/Run/Redraw.antt =====
-- Applications/RuntimeVarEditor/RuntimeVarEditor.c: `RveRedrawListSelection` against `RveDrawList`.
use uefi_tools_pkg.Base.{
  ℕ, ◌+◌, ◌-◌, ◌<◌, ◌≤◌, ◌≡◌, refl, arith, by_test, Bool-cases, inl, inr, false, not, ◌&&◌, Option,
  List, ltb, leb, ◌==◌, if◌then◌else◌, length,
}
use uefi_tools_pkg.VarEditor.Variable.{Variable}
use uefi_tools_pkg.VarEditor.Load.{Note}
use uefi_tools_pkg.VarEditor.Run.{
  list_of, Row, Shown, row_of, rows_of, listing, draw_row, redraw_rows, redraw,
}

module _ (rows : ℕ) (variables : List Variable) (old new first place : ℕ) where
  row_here :
      (index : ℕ)
      → index ≡ first + place
      → place < rows
      → row_of variables index (index == new) ≡ rows_of rows variables new first place
  row_here index e inside =
      by_test (λ (r : Option Row). row_of variables index (index == new) ≡ r) (ltb place rows)
        (λ _. λ i. row_of variables (e i) (e i == new)) (λ f. absurd (ground (arith, f, inside)))

  row_elsewhere :
      (place < rows → (first + place == old) ≡ (first + place == new))
      → rows_of rows variables old first place ≡ rows_of rows variables new first place
  row_elsewhere same = elim (Bool-cases (ltb place rows)) [
    | inl e ↦ let h = same (ground (arith, e)) in rw e (λ i. row_of variables (first + place) (h i))
    | inr e ↦ rw e refl
  ]

  module _ (old_above : first ≤ old) (old_below : 0 < rows → old < first + rows)
      (new_above : first ≤ new) (new_below : 0 < rows → new < first + rows) where
    redraw_rows-place :
        redraw_rows rows variables old new first (rows_of rows variables old first) place
        ≡ rows_of rows variables new first place
    unfolding redraw_rows
    redraw_rows-place =
        by_test (λ (shown : ℕ → Option Row). shown place ≡ rows_of rows variables new first place)
          (not (new == old) && (leb first new && ltb new (first + rows)))
          (λ drawn.
            by_test (λ (r : Option Row). r ≡ rows_of rows variables new first place)
              (leb first new && place == new - first)
              (λ here.
                row_here new (ground (arith, here, new_above))
                  (ground (arith, here, drawn, new_above)))
              (λ away. under (λ inside. ground (arith, away, new_above))))
          (λ undrawn.
            under (λ inside other. ground (arith, undrawn, inside, other, new_above, new_below)))
      where
        elsewhere :
            place < rows
            → (first + place == old) ≡ false
            → (place < rows → (new == old) ≡ false → (first + place == new) ≡ false)
            → (first + place == old) ≡ (first + place == new)
        elsewhere inside gone away = elim (Bool-cases (new == old)) [
          | inl e ↦ ground (arith, e)
          | inr e ↦ cc (gone, away inside e)
        ]

        under :
            (place < rows → (new == old) ≡ false → (first + place == new) ≡ false)
            → (if leb first old && ltb old (first + rows)
                  then draw_row variables old first new (rows_of rows variables old first)
                  else rows_of rows variables old first)
                place
              ≡ rows_of rows variables new first place
        under away =
            by_test
              (λ (shown : ℕ → Option Row). shown place ≡ rows_of rows variables new first place)
              (leb first old && ltb old (first + rows))
              (λ drawn.
                by_test (λ (r : Option Row). r ≡ rows_of rows variables new first place)
                  (leb first old && place == old - first)
                  (λ here.
                    row_here old (ground (arith, here, old_above))
                      (ground (arith, here, drawn, old_above)))
                  (λ gone.
                    row_elsewhere
                      (λ inside. elsewhere inside (ground (arith, gone, old_above)) away)))
              (λ undrawn.
                row_elsewhere
                  (λ inside. absurd (ground (arith, undrawn, inside, old_above, old_below))))

pub redraw-listing :
    (rows : ℕ) (variables : List Variable) (old new first : ℕ) (last message : Option Note)
    → old < length variables
    → first ≤ old
    → (0 < rows → old < first + rows)
    → first ≤ new
    → (0 < rows → new < first + rows)
    → redraw rows variables old new first message (listing rows variables old first last)
      ≡ listing rows variables new first message
unfolding redraw
redraw-listing rows variables old new first last message inside a b c d =
    by_test (λ (s : Shown). s ≡ listing rows variables new first message) (length variables == 0)
      (λ e. absurd (ground (arith, e, inside)))
      (λ _. λ i.
        list_of variables new first message
          (λ place. redraw_rows-place rows variables old new first place a b c d i))
