-- ===== src/VarEditor/Screen/Bounds.antt =====
-- Applications/RuntimeVarEditor/RuntimeVarEditor.c: where `RveFillRect` paints.
use uefi_tools_pkg.Base.{
  ℕ, ◌≡◌, true, false, ◌&&◌, ltb, ◌+◌, ◌≤◌, ◌<◌, Bool, not, ◌||◌, List, [], ◌∷◌, leb, ◌==◌, by_test,
  arith,
}
use uefi_tools_pkg.VarEditor.Screen.{Context, Color, Draw, blt, fill_rect}

-- every rectangle that is painted has an area and lies on the screen
abbrev pub AreOnScreen : Context → List Draw → Type 0
AreOnScreen context [] = Unit {0}
AreOnScreen context (blt x y width height color ∷ draws) =
    (0 < width)
    × (0 < height)
    × (x + width ≤ context.width)
    × (y + height ≤ context.height)
    × AreOnScreen context draws
AreOnScreen context (_ ∷ draws) = AreOnScreen context draws

fill_rect-AreOnScreen :
    (context : Context) (x y width height : ℕ) (color : Color)
    → AreOnScreen context (fill_rect context x y width height color)
unfolding fill_rect
fill_rect-AreOnScreen context x y width height color =
    by_test (AreOnScreen context) (not context.gop || width == 0 || height == 0) (λ _. tt)
      (λ e.
        by_test (AreOnScreen context) (leb context.width x || leb context.height y) (λ _. tt)
          (λ f. (
            ground (arith, e, f),
            ground (arith, e, f),
            ground (arith, e, f),
            ground (arith, e, f),
            tt,
          )))

abbrev pub covers : ℕ → ℕ → ℕ → ℕ → ℕ → ℕ → Bool
covers px py x y width height = leb x px && ltb px (x + width) && leb y py && ltb py (y + height)

-- whether a rectangle that is painted has the point
abbrev pub paints : ℕ → ℕ → List Draw → Bool
paints px py [] = false
paints px py (blt x y width height color ∷ draws) =
    covers px py x y width height || paints px py draws
paints px py (_ ∷ draws) = paints px py draws

fill_rect-paints :
    (context : Context) (px py x y width height : ℕ) (color : Color)
    → context.gop ≡ true
    → paints px py (fill_rect context x y width height color)
      ≡ (covers px py x y width height && covers px py 0 0 context.width context.height)
unfolding fill_rect
fill_rect-paints context px py x y width height color found =
    let inside = covers px py x y width height && covers px py 0 0 context.width context.height in
    by_test (λ (l : List Draw). paints px py l ≡ inside)
      (not context.gop || width == 0 || height == 0) (λ e. ground (arith, e, found))
      (λ e.
        by_test (λ (l : List Draw). paints px py l ≡ inside)
          (leb context.width x || leb context.height y) (λ f. ground (arith, f))
          (λ f. ground (arith, e, f)))

-- With a graphics output protocol: `RveFillRect` paints just the points of the rectangle that lie on the
-- screen, and it asks for no rectangle that is empty or leaves the screen.
pub fill_rect_clipped :
    (context : Context) (px py x y width height : ℕ) (color : Color)
    → context.gop ≡ true
    → (paints px py (fill_rect context x y width height color)
        ≡ (covers px py x y width height && covers px py 0 0 context.width context.height))
      × AreOnScreen context (fill_rect context x y width height color)
fill_rect_clipped context px py x y width height color found = (
  fill_rect-paints context px py x y width height color found,
  fill_rect-AreOnScreen context x y width height color,
)
