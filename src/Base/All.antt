-- ===== src/Base/All.antt =====
-- A property of each element of a list, and that sorting and writing to the list keep it.
use Prim.Native.Nat.{ℕ, zero, suc}
use mathlib.Core.Path.{◌≡◌, subst, sym}
use mathlib.Core.Option.{some}
use mathlib.Core.Bool.{Bool}
use mathlib.Core.List.{List, [], ◌∷◌, ◌++◌, reverse, reverse-cons}
use uefi_tools_pkg.Base.Tests.{by_test}
use uefi_tools_pkg.Base.Lists.{get_elem?, set}
use uefi_tools_pkg.Base.Insertion.{insert_below, sort_onto, insertion_sort}

abbrev pub All : {A : Type 0} → (A → Type 0) → List A → Type 0
All P [] = Unit {0}
All P (x ∷ xs) = P x × All P xs

module _ {A : Type 0} (P : A → Type 0) where
  pub All-append : (xs ys : List A) → All P xs → All P ys → All P (xs ++ ys)
  All-append [] ys h k = k
  All-append (x ∷ xs) ys h k = (h.0, All-append xs ys h.1 k)

  All-reverse : (xs : List A) → All P xs → All P (reverse xs)
  All-reverse [] h = tt
  All-reverse (x ∷ xs) h =
      subst (All P) (sym (reverse-cons x xs))
        (All-append (reverse xs) (x ∷ []) (All-reverse xs h.1) (h.0, tt))

  pub All-set : (xs : List A) (i : ℕ) (x : A) → P x → All P xs → All P (set xs i x)
  All-set [] i x h k = tt
  All-set (y ∷ xs) zero x h k = (h, k.1)
  All-set (y ∷ xs) (suc i) x h k = (k.0, All-set xs i x h k.1)

  pub All-elem : (xs : List A) (i : ℕ) (x : A) → get_elem? xs i ≡ some x → All P xs → P x
  All-elem [] i x e h = absurd cc
  All-elem (y ∷ xs) zero x e h = subst P same h.0
    where
      same : y ≡ x
      same = cc (e)
  All-elem (y ∷ xs) (suc i) x e h = All-elem xs i x e h.1

  module _ (passes : A → A → Bool) where
    All-insert_below : (x : A) (xs : List A) → P x → All P xs → All P (insert_below passes x xs)
    unfolding insert_below
    All-insert_below x [] h k = (h, tt)
    All-insert_below x (y ∷ xs) h k =
        by_test (All P) (passes x y) (λ _. (k.0, All-insert_below x xs h k.1))
          (λ _. (h, (k.0, k.1)))

    All-sort_onto : (xs ys : List A) → All P xs → All P ys → All P (sort_onto passes xs ys)
    unfolding sort_onto
    All-sort_onto xs [] h k = All-reverse xs h
    All-sort_onto xs (y ∷ ys) h k =
        All-sort_onto (insert_below passes y xs) ys (All-insert_below y xs k.0 h) k.1

    pub All-insertion_sort : (xs : List A) → All P xs → All P (insertion_sort passes xs)
    unfolding insertion_sort
    All-insertion_sort [] h = tt
    All-insertion_sort (x ∷ xs) h = All-sort_onto (x ∷ []) xs (h.0, tt) h.1
