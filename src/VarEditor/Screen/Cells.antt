-- ===== src/VarEditor/Screen/Cells.antt =====
-- Applications/RuntimeVarEditor/RuntimeVarEditor.c: the texts on the screen, as the last that are drawn.
use uefi_tools_pkg.Base.{
  ℕ, ◌+◌, ◌<◌, ◌≡◌, refl, sym, ◌∙◌, subst, by_test, Bool, true, false, ◌&&◌, ◌||◌, not, Option,
  none, some, List, [], ◌∷◌, ◌++◌, leb, ◌==◌, if◌then◌else◌, length, get_elem?, min,
}
use uefi_tools_pkg.VarEditor.Variable.{Variable}
use uefi_tools_pkg.VarEditor.Load.{Note}
use uefi_tools_pkg.VarEditor.Run.Bounds.{get_elem?-some}
use uefi_tools_pkg.VarEditor.Screen.{
  Context, Color, Label, name_of, attributes_of, size_of, guid_of, Draw, clear_screen, blt, image,
  print, fill_rect, draw_text, info_lines, count_line, selected_lines, row_texts, panel, text, warn,
  ok, muted, counts, selected_line, guid_line,
}

-- a text with its colours
abbrev pub Cell : Type 0
Cell = Label × Color × Color

abbrev pub or_else : Option Cell → Option Cell → Option Cell
or_else (some c) last = some c
or_else none last = last

-- the text that was drawn last from this point on
unfoldable pub text_at : ℕ → ℕ → List Draw → Option Cell
text_at px py [] = none
text_at px py (image x y label foreground background ∷ draws) =
    or_else (text_at px py draws)
      (if x == px && y == py then some (label, foreground, background) else none)
text_at px py (_ ∷ draws) = text_at px py draws

pub or_else_assoc : (a b c : Option Cell) → or_else (or_else a b) c ≡ or_else a (or_else b c)
or_else_assoc none b c = refl
or_else_assoc (some a) b c = refl

pub or_else-none : (a : Option Cell) → or_else a none ≡ a
or_else-none none = refl
or_else-none (some a) = refl

-- there is a text wherever there is one of the other
abbrev pub Hides : Option Cell → Option Cell → Type 0
Hides a none = Unit {0}
Hides none (some b) = ⊥
Hides (some a) (some b) = Unit {0}

test-Hides :
    (t : Bool) (c c' : Cell) → Hides (if t then some c else none) (if t then some c' else none)
test-Hides true c c' = tt
test-Hides false c c' = tt

Hides-or_else :
    (a b a' b' : Option Cell) → Hides a b → Hides a' b' → Hides (or_else a' a) (or_else b' b)
Hides-or_else a b none none h h' = h
Hides-or_else a none (some c) none h h' = h
Hides-or_else a (some b) (some c) none h h' = tt
Hides-or_else a b none (some d) h h' = absurd h'
Hides-or_else a b (some c) (some d) h h' = tt

pub or_else_hidden :
    (a b rest : Option Cell) → Hides a b → or_else a (or_else b rest) ≡ or_else a rest
or_else_hidden none none rest h = refl
or_else_hidden none (some b) rest h = absurd h
or_else_hidden (some a) b rest h = refl

module _ (px py : ℕ) where
  pub text_at-append :
      (a b : List Draw) → text_at px py (a ++ b) ≡ or_else (text_at px py b) (text_at px py a)
  unfolding text_at
  text_at-append [] b = sym (or_else-none (text_at px py b))
  text_at-append (clear_screen ∷ a) b = text_at-append a b
  text_at-append (blt x y w h c ∷ a) b = text_at-append a b
  text_at-append (print l ∷ a) b = text_at-append a b
  text_at-append (image x y l f b' ∷ a) b =
      let cell = if x == px && y == py then some (l, f, b') else none in
      (λ i. or_else (text_at-append a b i) cell)
      ∙ or_else_assoc (text_at px py b) (text_at px py a) cell

  module _ (context : Context) where
    pub fill_rect-text_at :
        (x y w h : ℕ) (c : Color) → text_at px py (fill_rect context x y w h c) ≡ none
    unfolding text_at fill_rect
    fill_rect-text_at x y w h c =
        by_test (λ (l : List Draw). text_at px py l ≡ none) (not context.gop || w == 0 || h == 0)
          (λ _. refl)
          (λ _.
            by_test (λ (l : List Draw). text_at px py l ≡ none)
              (leb context.width x || leb context.height y) (λ _. refl) (λ _. refl))

    -- a text elsewhere is not seen here
    pub draw_text_elsewhere :
        (x y : ℕ) (l : Label) (f b : Color)
        → (x == px && y == py) ≡ false
        → text_at px py (draw_text context x y l f b) ≡ none
    unfolding text_at draw_text
    draw_text_elsewhere x y l f b e =
        by_test (λ (d : List Draw). text_at px py d ≡ none)
          (not context.graphics || not context.font || not context.gop) (λ _. refl)
          (λ _ i. if e i then some (l, f, b) else none)

    draw_text-Hides :
        (x y : ℕ) (l l' : Label) (f f' b b' : Color)
        → Hides
            (text_at px py (draw_text context x y l f b))
            (text_at px py (draw_text context x y l' f' b'))
    unfolding text_at draw_text
    draw_text-Hides x y l l' f f' b b' =
        same_test (not context.graphics || not context.font || not context.gop)
      where
        same_test :
            (t : Bool)
            → Hides
                (text_at px py (if t then print l ∷ [] else image x y l f b ∷ []))
                (text_at px py (if t then print l' ∷ [] else image x y l' f' b' ∷ []))
        same_test true = tt
        same_test false = test-Hides (x == px && y == py) (l, f, b) (l', f', b')

    pub text_at-Hides :
        (a b a' b' : List Draw)
        → Hides (text_at px py a) (text_at px py b)
        → Hides (text_at px py a') (text_at px py b')
        → Hides (text_at px py (a ++ a')) (text_at px py (b ++ b'))
    text_at-Hides a b a' b' h h' =
        rw (text_at-append a a', text_at-append b b')
          (Hides-or_else (text_at px py a) (text_at px py b) (text_at px py a') (text_at px py b') h
            h')

    -- the same places of two texts, and of what is before them
    text_after_Hides :
        (first first' : List Draw) (x y : ℕ) (l l' : Label) (f f' b b' : Color)
        → Hides (text_at px py first) (text_at px py first')
        → Hides
            (text_at px py (first ++ draw_text context x y l f b))
            (text_at px py (first' ++ draw_text context x y l' f' b'))
    text_after_Hides first first' x y l l' f f' b b' h =
        text_at-Hides first first' (draw_text context x y l f b) (draw_text context x y l' f' b') h
          (draw_text-Hides x y l l' f f' b b')

    -- a row hides the texts of the row in another colour
    pub row_texts-Hides :
        (v : Variable) (y : ℕ) (c c' : Color)
        → Hides (text_at px py (row_texts context v y c)) (text_at px py (row_texts context v y c'))
    row_texts-Hides v y c c' =
        let n = λ (c : Color). draw_text context 24 y (name_of v) text c in
        let a = λ (c : Color). n c ++ draw_text context 320 y (attributes_of v) text c in
        let s = λ (c : Color). a c ++ draw_text context 600 y (size_of v) text c in
        text_after_Hides (s c) (s c') 690 y (guid_of v) (guid_of v) text text c c' (
          text_after_Hides (a c) (a c') 600 y (size_of v) (size_of v) text text c c' (
            text_after_Hides (n c) (n c') 320 y (attributes_of v) (attributes_of v) text text c c'
              (draw_text-Hides 24 y (name_of v) (name_of v) text text c c')))

    selected_lines-Hides :
        (v : Variable) (o : Option Variable)
        → Hides
            (text_at px py (selected_lines context (some v)))
            (text_at px py (selected_lines context o))
    unfolding text_at
    selected_lines-Hides v none = tt
    selected_lines-Hides v (some v') =
        text_after_Hides (draw_text context 18 88 (selected_line v) warn panel)
          (draw_text context 18 88 (selected_line v') warn panel) 18 110 (guid_line v)
          (guid_line v') muted muted panel panel
          (draw_text-Hides 18 88 (selected_line v) (selected_line v') warn warn panel panel)

    -- the lines on a variable hide those on another
    pub info_lines-Hides :
        (variables : List Variable) (selected selected' first rows : ℕ)
        (message message' : Option Note)
        → selected < length variables
        → Hides
            (text_at px py (info_lines context variables selected first rows message))
            (text_at px py (info_lines context variables selected' first rows message'))
    info_lines-Hides variables selected selected' first rows message message' h =
        let (v, e) = get_elem?-some variables selected h in
        let count = length variables in
        let label = λ (s : ℕ) (m : Option Note).
          counts count (if count == 0 then 0 else s + 1) (if count == 0 then 0 else first + 1)
            (min (if count == 0 then 0 else first + rows) count) m in
        let color = if count == 0 then warn else ok in
        text_at-Hides (count_line context count selected first rows message)
          (count_line context count selected' first rows message')
          (selected_lines context (get_elem? variables selected))
          (selected_lines context (get_elem? variables selected'))
          (draw_text-Hides 18 64 (label selected message) (label selected' message') color color
            panel panel)
          (subst
            (λ (o : Option Variable).
              Hides (text_at px py (selected_lines context o))
                (text_at px py (selected_lines context (get_elem? variables selected'))))
            (sym e) (selected_lines-Hides v (get_elem? variables selected')))
