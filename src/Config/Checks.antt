-- ===== src/Config/Checks.antt =====
-- internal/config/config.go: the checks of a validation in their order, of which the first that
-- fails gives the error; and the signed comparisons that they make.
use malert.Base.{
  Int64, int64_mod, int64_half, leb_i64, ltb_i64, ◌%◌, ◌<◌, ◌≡◌, refl, ◌↔◌, Bool, true, false,
  Option, none, some, List, [], ◌∷◌, ◌++◌, arith, if◌then◌else◌, ◌||◌,
}

-- The first error whose condition holds.
unfoldable pub first_failing : {E : Type 0} → List (Bool × E) → Option E
first_failing [] = none
first_failing ((bad, e) ∷ rest) = let later = first_failing rest in if bad then some e else later

pub first_failing_append :
    {E : Type 0} (xs ys : List (Bool × E))
    → first_failing (xs ++ ys) ≡ none ↔ (first_failing xs ≡ none) × (first_failing ys ≡ none)
unfolding first_failing
first_failing_append [] ys = (λ h. (refl, h), λ h. h.1)
first_failing_append ((true, e) ∷ xs) ys = ground arith
first_failing_append ((false, e) ∷ xs) ys = first_failing_append xs ys

-- No error means that no condition holds.
pub first_failing-none :
    {E : Type 0} (bad : Bool) (e : E) (rest : List (Bool × E))
    → first_failing ((bad, e) ∷ rest) ≡ none ↔ (bad ≡ false) × (first_failing rest ≡ none)
unfolding first_failing
first_failing-none true e rest = ground arith
first_failing-none false e rest = (λ h. (refl, h), λ h. h.1)

module _ {E : Type 0} {P : Type 0} {bad : Bool} (e : E) (test : (bad ≡ false) ↔ P) where
  pub first_failing_only : (first_failing ((bad, e) ∷ []) ≡ none) ↔ P
  unfolding first_failing
  first_failing_only = (
    λ h. test.0 ((first_failing-none bad e []).0 h).0,
    λ p. (first_failing-none bad e []).1 (test.1 p, refl),
  )

  pub first_failing_step :
      {Q : Type 0} (rest : List (Bool × E))
      → (first_failing rest ≡ none) ↔ Q
      → (first_failing ((bad, e) ∷ rest) ≡ none) ↔ (P × Q)
  first_failing_step rest later = (
    λ h. (
      test.0 ((first_failing-none bad e rest).0 h).0,
      later.0 ((first_failing-none bad e rest).0 h).1,
    ),
    λ h. (first_failing-none bad e rest).1 (test.1 h.0, later.1 h.1),
  )

pub first_failing_both :
    {E : Type 0} {P Q : Type 0} (xs ys : List (Bool × E))
    → (first_failing xs ≡ none) ↔ P
    → (first_failing ys ≡ none) ↔ Q
    → (first_failing (xs ++ ys) ≡ none) ↔ (P × Q)
first_failing_both xs ys p q = (
  λ h. (p.0 ((first_failing_append xs ys).0 h).0, q.0 ((first_failing_append xs ys).0 h).1),
  λ h. (first_failing_append xs ys).1 (p.1 h.0, q.1 h.1),
)

-- `a <= 0`, `a < 0` and `a > 0` of an int64.
abbrev pub is_nonpositive : Int64 → Bool
is_nonpositive a = leb_i64 a 0

abbrev pub is_negative : Int64 → Bool
is_negative a = ltb_i64 a 0

abbrev pub is_positive : Int64 → Bool
is_positive a = ltb_i64 0 a

-- The int64 is above 0, and is at least 0.
abbrev pub Positive : Int64 → Type 0
Positive a = (0 < a % int64_mod) × (a % int64_mod < int64_half)

abbrev pub NonNegative : Int64 → Type 0
NonNegative a = a % int64_mod < int64_half

pub is_nonpositive_iff : (a : Int64) → (is_nonpositive a ≡ false) ↔ Positive a
unfolding leb_i64
is_nonpositive_iff a = ground arith

pub is_negative_iff : (a : Int64) → (is_negative a ≡ false) ↔ NonNegative a
unfolding ltb_i64
is_negative_iff a = ground arith

pub is_positive_iff : (a : Int64) → (is_positive a ≡ false) ↔ (Positive a → ⊥)
unfolding ltb_i64
is_positive_iff a = ground arith

pub or_iff :
    {P Q : Type 0} {a b : Bool} → (a ≡ false) ↔ P → (b ≡ false) ↔ Q → ((a || b) ≡ false) ↔ (P × Q)
or_iff {a = true} p q = (λ h. cc, λ h. p.1 h.0)
or_iff {a = false} p q = (λ h. (p.0 refl, q.0 h), λ h. q.1 h.1)
