-- ===== src/Topology/Parents/Best.antt =====
-- Applications/PciTopology/PciTopology.c: the inner loop of `AssignParents`.
use uefi_tools_pkg.Base.{
  ℕ, zero, suc, ◌+◌, ◌≤◌, ◌<◌, ◌≡◌, refl, ◌≢◌, Bool, true, false, ◌&&◌, not, some, List, [], ◌∷◌,
  ltb, ◌==◌, get_elem?, arith, ◌⊎◌, inl, inr, Bool-cases, subst, sym,
}
use uefi_tools_pkg.Topology.Device.{Device}
use uefi_tools_pkg.Topology.Parents.{covers, span, best_from}

-- The bridge at place `k` of `devices`, which are counted from `i`, can be the parent.
abbrev pub Candidate : ℕ → Device → ℕ → List Device → ℕ → Device → Type 0
Candidate child_index child i devices k bridge =
    (get_elem? devices k ≡ some bridge) × (i + k ≢ child_index) × (covers bridge child ≡ true)

-- The parent is the first of the narrowest candidates, at place `k`.
pub record IsNarrowest (child_index : ℕ) (child : Device) (i : ℕ) (devices : List Device)
    (limit found : ℕ) : Type 0 where
  pub k : ℕ
  pub bridge : Device
  pub place : found ≡ i + k
  pub candidate : Candidate child_index child i devices k bridge
  pub below_limit : span bridge < limit
  pub narrowest :
      (m : ℕ) (other : Device)
      → Candidate child_index child i devices m other
      → (span bridge ≤ span other) × (span other ≡ span bridge → k ≤ m)

-- every candidate is as wide as the limit at least
abbrev pub AllWide : ℕ → Device → ℕ → List Device → ℕ → Type 0
AllWide child_index child i devices limit =
    (m : ℕ) (other : Device) → Candidate child_index child i devices m other → limit ≤ span other

module _ (c : ℕ) (child : Device) where
  takes : ℕ → Device → ℕ → Bool
  takes i bridge limit = not (i == c) && (covers bridge child && ltb (span bridge) limit)

  takes-yes :
      (i limit : ℕ) (bridge : Device)
      → takes i bridge limit ≡ true
      → (i + 0 ≢ c) × (covers bridge child ≡ true) × (span bridge < limit)
  unfolding takes
  takes-yes i limit bridge h = ground arith

  takes-no :
      (i limit : ℕ) (bridge : Device)
      → takes i bridge limit ≡ false
      → i + 0 ≢ c
      → covers bridge child ≡ true
      → limit ≤ span bridge
  unfolding takes
  takes-no i limit bridge h ne cov = ground arith

  shift :
      (i m : ℕ) (bridge other : Device) (rest : List Device)
      → Candidate c child i (bridge ∷ rest) (suc m) other
      → Candidate c child (suc i) rest m other
  shift i m bridge other rest (at, ne, cov) = (at, λ e. ne (omega arith), cov)

  unshift :
      (i m : ℕ) (bridge other : Device) (rest : List Device)
      → Candidate c child (suc i) rest m other
      → Candidate c child i (bridge ∷ rest) (suc m) other
  unshift i m bridge other rest (at, ne, cov) = (at, λ e. ne (omega arith), cov)

  -- the head against the limit, and the rest by induction
  AllWide-cons :
      (i limit : ℕ) (bridge : Device) (rest : List Device)
      → (i + 0 ≢ c → covers bridge child ≡ true → limit ≤ span bridge)
      → AllWide c child (suc i) rest limit
      → AllWide c child i (bridge ∷ rest) limit
  AllWide-cons i limit bridge rest h wide zero other (at, ne, cov) =
      let same : bridge ≡ other = cc (at) in
      subst (λ (d : Device). limit ≤ span d) same
        (h ne (subst (λ (d : Device). covers d child ≡ true) (sym same) cov))
  AllWide-cons i limit bridge rest h wide (suc m) other cand =
      wide m other (shift i m bridge other rest cand)

  IsNarrowest-head :
      (i limit found : ℕ) (bridge : Device) (rest : List Device)
      → takes i bridge limit ≡ true
      → found ≡ i
      → AllWide c child (suc i) rest (span bridge)
      → IsNarrowest c child i (bridge ∷ rest) limit found
  IsNarrowest-head i limit found bridge rest t e wide =
      let (ne, cov, below) = takes-yes i limit bridge t in
      let all = AllWide-cons i (span bridge) bridge rest (λ _ _. omega arith) wide in
      record {
        k = 0;
        bridge = bridge;
        place = omega (arith, e);
        candidate = (refl, ne, cov);
        below_limit = below;
        narrowest = λ m other cand. (all m other cand, λ _. omega arith);
      }

  -- a candidate behind the head that is narrower than all that may be the head
  IsNarrowest-tail :
      (i limit limit' found : ℕ) (bridge : Device) (rest : List Device)
      → limit' ≤ limit
      → (i + 0 ≢ c → covers bridge child ≡ true → limit' ≤ span bridge)
      → IsNarrowest c child (suc i) rest limit' found
      → IsNarrowest c child i (bridge ∷ rest) limit found
  IsNarrowest-tail i limit limit' found bridge rest le h n = record {
    k = suc n.k;
    bridge = n.bridge;
    place = omega (arith, n.place);
    candidate = unshift i n.k bridge n.bridge rest n.candidate;
    below_limit = omega (arith, n.below_limit, le);
    narrowest = tail_narrowest;
  }
    where
      tail_narrowest :
          (m : ℕ) (other : Device)
          → Candidate c child i (bridge ∷ rest) m other
          → (span n.bridge ≤ span other) × (span other ≡ span n.bridge → suc n.k ≤ m)
      tail_narrowest zero other (at, ne, cov) =
          let same : bridge ≡ other = cc (at) in
          let wide : limit' ≤ span other =
            subst (λ (d : Device). limit' ≤ span d) same
              (h ne (subst (λ (d : Device). covers d child ≡ true) (sym same) cov)) in
          let below = n.below_limit in
          (omega (arith, wide, below), λ e. absurd (omega (arith, wide, below, e)))
      tail_narrowest (suc m) other cand =
          let (a, b) = n.narrowest m other (shift i m bridge other rest cand) in
          (a, λ e. omega (arith, b e))

  pub best_from-best :
      (i : ℕ) (rest : List Device) (best limit : ℕ)
      → ((best_from c child i rest best limit ≡ best) × AllWide c child i rest limit)
        ⊎ IsNarrowest c child i rest limit (best_from c child i rest best limit)
  unfolding best_from takes
  best_from-best i [] best limit = inl (refl, λ m other cand. absurd (nothing m other cand.0))
    where
      nothing : (m : ℕ) (other : Device) → get_elem? [] m ≡ some other → ⊥
      nothing m other e = cc
  best_from-best i (bridge ∷ rest) best limit = elim (Bool-cases (takes i bridge limit)) [
    | inl t ↦ rw t (elim (best_from-best (suc i) rest i (span bridge)) [
      | inl (e, wide) ↦ inr (IsNarrowest-head i limit _ bridge rest t e wide)
      | inr n ↦ inr (
          IsNarrowest-tail i limit (span bridge) _ bridge rest
            (omega (arith, (takes-yes i limit bridge t).2)) (λ _ _. omega arith) n)
    ])
    | inr t ↦ rw t (elim (best_from-best (suc i) rest best limit) [
      | inl (e, wide) ↦ inl (e, AllWide-cons i limit bridge rest (takes-no i limit bridge t) wide)
      | inr n ↦
          inr (
            IsNarrowest-tail i limit limit _ bridge rest (omega arith) (takes-no i limit bridge t)
              n)
    ])
  ]
