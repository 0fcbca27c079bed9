-- ===== src/Base/Insertion.antt =====
-- An insertion sort in place, as the tools write it. A round sees the array before the index and the
-- rest behind it; the part before is held nearest first, since the inner loop walks down.
use mathlib.Core.List.{
  Perm, perm_middle, Mem, mem-cons, not-mem-nil, append-nil, reverse, reverse_perm,
  Pairwise-reverse, Pairwise,
}
use mathlib.Core.Logic.Or
use mathlib.Core.HLevel.{¬_prop}
use mathlib.Core.List.Perm
use mathlib.Core.Path.{◌≡◌}
use mathlib.Core.Logic.{inl, inr}
use mathlib.Core.Bool.{Bool, true, false}
use mathlib.Core.List.{List, [], ◌∷◌, ◌++◌}
use uefi_tools_pkg.Base.Tests.{if◌then◌else◌, Bool-cases}

-- `passes current before`: the element at hand moves below the one before it
module _ {A : Type 0} (passes : A → A → Bool) where
  unfoldable pub insert_below : A → List A → List A
  insert_below current [] = current ∷ []
  insert_below current (before ∷ rest) =
      if passes current before then before ∷ insert_below current rest else current ∷ before ∷ rest

  unfoldable pub sort_onto : List A → List A → List A
  sort_onto before [] = reverse before
  sort_onto before (current ∷ rest) = sort_onto (insert_below current before) rest

  -- the loop starts at 1: the first element is in place
  unfoldable pub insertion_sort : List A → List A
  insertion_sort [] = []
  insertion_sort (first ∷ rest) = sort_onto (first ∷ []) rest

  insert_below-perm : (d : A) (l : List A) → Perm (insert_below d l) (d ∷ l)
  unfolding insert_below
  insert_below-perm d [] = Perm.refl (d ∷ [])
  insert_below-perm d (b ∷ rest) = elim (Bool-cases (passes d b)) [
    | inl moves ↦
        rw (moves, insert_below)
          (Perm.trans (Perm.cons b (insert_below-perm d rest)) (Perm.swap d b rest))
    | inr stays ↦ rw (stays, insert_below) (Perm.refl (d ∷ b ∷ rest))
  ]

  sort_onto-perm : (before rest : List A) → Perm (sort_onto before rest) (before ++ rest)
  unfolding sort_onto
  sort_onto-perm before [] = rw append-nil (reverse_perm before)
  sort_onto-perm before (d ∷ rest) = Perm.trans (sort_onto-perm (insert_below d before) rest) (
      Perm.trans (Perm.append (insert_below-perm d before) (Perm.refl rest))
        (Perm.symm (perm_middle before rest)))

  pub insertion_sort-perm : (l : List A) → Perm (insertion_sort l) l
  unfolding insertion_sort
  insertion_sort-perm [] = Perm.refl []
  insertion_sort-perm (d ∷ rest) = sort_onto-perm (d ∷ []) rest

-- A test that puts elements in order: `Bad a b` says that `a` must not stand before `b`.
pub record Orders {A : Type 0} (passes : A → A → Bool) (Bad : A → A → Type 0) : Type 0 where
  pub trans : (a b c : A) → ¬ (Bad a b) → ¬ (Bad b c) → ¬ (Bad a c)
  pub passed : (a b : A) → passes a b ≡ true → ¬ (Bad a b)
  pub stayed : (a b : A) → passes a b ≡ false → ¬ (Bad b a)

module _ {A : Type 0} {passes : A → A → Bool} {Bad : A → A → Type 0}
    (order : Orders passes Bad) where
  -- nearest first: every element may stand before those in front of it
  abbrev Descends : A → A → Type 0
  Descends a b = ¬ (Bad b a)

  below_all :
      (x d : A) (l : List A)
      → ¬ (Bad d x)
      → ((a : A) → Mem a l → ¬ (Bad a d))
      → (a : A) → Mem a (d ∷ l)
      → ¬ (Bad a x)
  below_all x d l h k a m =
      Or.elim ¬_prop (mem-cons.0 m) (λ e. rw e h) (λ m'. order.trans a d x (k a m') h)

  insert_below-Pairwise :
      (d : A) (l : List A) → Pairwise Descends l → Pairwise Descends (insert_below passes d l)
  unfolding insert_below
  insert_below-Pairwise d [] Pairwise.nil =
      Pairwise.cons (λ a m. absurd (not-mem-nil m)) Pairwise.nil
  insert_below-Pairwise d (b ∷ rest) (Pairwise.cons h p) = elim (Bool-cases (passes d b)) [
    | inl moves ↦
        rw (moves, insert_below)
          (Pairwise.cons
            (λ a m.
              Or.elim ¬_prop (mem-cons.0 ((Perm.mem_iff (insert_below-perm passes d rest)).0 m))
                (λ e. rw e (order.passed d b moves)) (λ m'. h a m'))
            (insert_below-Pairwise d rest p))
    | inr stays ↦
        rw (stays, insert_below)
          (Pairwise.cons (below_all d b rest (order.stayed d b stays) h) (Pairwise.cons h p))
  ]

  sort_onto-Pairwise :
      (before rest : List A)
      → Pairwise Descends before
      → Pairwise (λ a b. ¬ (Bad a b)) (sort_onto passes before rest)
  unfolding sort_onto
  sort_onto-Pairwise before [] p = (Pairwise-reverse (λ a b. ¬_prop)).1 p
  sort_onto-Pairwise before (d ∷ rest) p =
      sort_onto-Pairwise (insert_below passes d before) rest (insert_below-Pairwise d before p)

  pub insertion_sort-Pairwise :
      (l : List A) → Pairwise (λ a b. ¬ (Bad a b)) (insertion_sort passes l)
  unfolding insertion_sort
  insertion_sort-Pairwise [] = Pairwise.nil
  insertion_sort-Pairwise (d ∷ rest) =
      sort_onto-Pairwise (d ∷ []) rest (Pairwise.cons (λ a m. absurd (not-mem-nil m)) Pairwise.nil)
