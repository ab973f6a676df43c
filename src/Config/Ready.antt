-- ===== src/Config/Ready.antt =====
-- internal/config/config.go, `validateValuePredicate`: what a predicate has that passed it.
use malert.Base.{
  is_some, Bool-cases, Option-cases, Text, codes, text_eq, text_eq_iff, ◌≡◌, refl, subst, inl, inr,
  true, false, Option, none, some, arith,
}
use malert.Config.Rule.{Regexp, RuleValuePredicate}
use malert.Config.Predicate.{compile_operand, validate_text_predicate, validate_value_predicate}
use malert.Engine.Matcher.{is_supported_op}

text_eq_clash : (k a b : Text) → text_eq k a ≡ true → text_eq a b ≡ false → text_eq k b ≡ false
text_eq_clash k a b h e = rw ((text_eq_iff k a).0 h) e

pub kind_clash :
    (k : Text)
    → (text_eq k (codes "n") ≡ true
        → (text_eq k (codes "s") ≡ false) × (text_eq k (codes "b") ≡ false))
      × (text_eq k (codes "s") ≡ true → text_eq k (codes "b") ≡ false)
unfolding text_eq
kind_clash k = (
  λ h. (
    text_eq_clash k (codes "n") (codes "s") h refl,
    text_eq_clash k (codes "n") (codes "b") h refl,
  ),
  λ h. text_eq_clash k (codes "s") (codes "b") h refl,
)

-- What the validation of a predicate leaves.
pub record Ready (q : RuleValuePredicate) : Type 0 where
  pub supported : is_supported_op q.kind q.op ≡ true
  pub number : text_eq q.kind (codes "n") ≡ true → is_some q.n ≡ true
  pub flag : text_eq q.kind (codes "b") ≡ true → is_some q.b ≡ true
  pub operand :
      text_eq q.kind (codes "s") ≡ true → text_eq q.op (codes "in") ≡ false → is_some q.s ≡ true
  pub regexp :
      text_eq q.kind (codes "s") ≡ true
      → text_eq q.op (codes "match") ≡ true
      → is_some q.compiled_match_re ≡ true
  pub wildcard :
      text_eq q.kind (codes "s") ≡ true
      → text_eq q.op (codes "*") ≡ true
      → is_some q.compiled_wildcard_re ≡ true

pub op_clash :
    (k : Text)
    → (text_eq k (codes "match") ≡ true → text_eq k (codes "*") ≡ false)
      × (text_eq k (codes "in") ≡ true
          → (text_eq k (codes "==") ≡ false)
            × (text_eq k (codes "!=") ≡ false)
            × (text_eq k (codes "prefix") ≡ false)
            × (text_eq k (codes "match") ≡ false)
            × (text_eq k (codes "*") ≡ false))
unfolding text_eq
op_clash k = (
  λ h. text_eq_clash k (codes "match") (codes "*") h refl,
  λ h. (
    text_eq_clash k (codes "in") (codes "==") h refl,
    text_eq_clash k (codes "in") (codes "!=") h refl,
    text_eq_clash k (codes "in") (codes "prefix") h refl,
    text_eq_clash k (codes "in") (codes "match") h refl,
    text_eq_clash k (codes "in") (codes "*") h refl,
  ),
)

none-some : (q : RuleValuePredicate) → none ≡ some q → ⊥
none-some q h = cc

pub no_kind :
    (kind op : Text)
    → text_eq kind (codes "n") ≡ false
    → text_eq kind (codes "s") ≡ false
    → text_eq kind (codes "b") ≡ false
    → is_supported_op kind op ≡ true
    → ⊥
unfolding is_supported_op
no_kind kind op n s b h = ground arith

-- A text predicate with what the branches of `case "s"` ask for.
text_Ready :
    (q : RuleValuePredicate)
    → is_supported_op q.kind q.op ≡ true
    → text_eq q.kind (codes "s") ≡ true
    → (text_eq q.op (codes "in") ≡ false → is_some q.s ≡ true)
    → (text_eq q.op (codes "match") ≡ true → is_some q.compiled_match_re ≡ true)
    → (text_eq q.op (codes "*") ≡ true → is_some q.compiled_wildcard_re ≡ true)
    → Ready q
text_Ready q supported k operand regexp wildcard = record {
  supported = supported;
  number = λ n. ground (arith, kind_clash q.kind);
  flag = λ b. ground (arith, kind_clash q.kind);
  operand = λ _. operand;
  regexp = λ _. regexp;
  wildcard = λ _. wildcard;
}

-- The same for a predicate of another kind.
plain_Ready :
    (q : RuleValuePredicate)
    → is_supported_op q.kind q.op ≡ true
    → (text_eq q.kind (codes "n") ≡ true → is_some q.n ≡ true)
    → (text_eq q.kind (codes "b") ≡ true → is_some q.b ≡ true)
    → text_eq q.kind (codes "s") ≡ false
    → Ready q
plain_Ready q supported number flag other = record {
  supported = supported;
  number = number;
  flag = flag;
  operand = λ k. ground arith;
  regexp = λ k. ground arith;
  wildcard = λ k. ground arith;
}

module _ (compile_regexp compile_wildcard : Text → Option Regexp) where
  compile_operand-Ready :
      (p q : RuleValuePredicate) (t : Text)
      → is_supported_op p.kind p.op ≡ true
      → text_eq p.kind (codes "s") ≡ true
      → p.s ≡ some t
      → compile_operand compile_regexp compile_wildcard p t ≡ some q
      → Ready q
  unfolding compile_operand
  compile_operand-Ready p q t supported k o h =
      let there : is_some p.s ≡ true = rw o refl in
      elim (Bool-cases (text_eq p.op (codes "match"))) [
        | inl m ↦ elim (Option-cases (compile_regexp t)) [
          | inl e ↦ elim (none-some q (rw e at rw m at h)) [ ]
          | inr (re, e) ↦
              let whole : some (record p { compiled_match_re = some re }) ≡ some q =
                rw e at rw m at h in
              let same : record p { compiled_match_re = some re } ≡ q = cc in
              subst Ready same (
                text_Ready (record p { compiled_match_re = some re }) supported k (λ _. there)
                  (λ _. refl) (λ w. ground (arith, op_clash p.op)))
        ]
        | inr m ↦ elim (Bool-cases (text_eq p.op (codes "*"))) [
          | inl x ↦ elim (Option-cases (compile_wildcard t)) [
            | inl e ↦ elim (none-some q (rw e at rw x at rw m at h)) [ ]
            | inr (re, e) ↦
                let whole : some (record p { compiled_wildcard_re = some re }) ≡ some q =
                  rw e at rw x at rw m at h in
                let same : record p { compiled_wildcard_re = some re } ≡ q = cc in
                subst Ready same (
                  text_Ready (record p { compiled_wildcard_re = some re }) supported k (λ _. there)
                    (λ y. ground arith) (λ _. refl))
          ]
          | inr x ↦
              let whole : some p ≡ some q = rw x at rw m at h in
              let same : p ≡ q = cc in
              subst Ready same
                (text_Ready p supported k (λ _. there) (λ y. ground arith) (λ y. ground arith))
        ]
      ]

  validate_text-Ready :
      (p q : RuleValuePredicate)
      → is_supported_op p.kind p.op ≡ true
      → text_eq p.kind (codes "s") ≡ true
      → validate_text_predicate compile_regexp compile_wildcard p ≡ some q
      → Ready q
  unfolding validate_text_predicate
  validate_text-Ready p q supported k h = elim (Bool-cases (text_eq p.op (codes "in"))) [
    | inl i ↦
        let same : p ≡ q = ground arith in
        subst Ready same (
          text_Ready p supported k (λ y. ground arith) (λ y. ground (arith, op_clash p.op))
            (λ y. ground (arith, op_clash p.op)))
    | inr i ↦ elim (Option-cases p.s) [
      | inl o ↦ elim (none-some q (rw o at rw i at h)) [ ]
      | inr (t, o) ↦ compile_operand-Ready p q t supported k o (rw o at rw i at h)
    ]
  ]

  pub validate_value_predicate-Ready :
      (raw q : RuleValuePredicate)
      → validate_value_predicate compile_regexp compile_wildcard raw ≡ some q
      → Ready q
  unfolding validate_value_predicate
  validate_value_predicate-Ready raw q h =
      let p : RuleValuePredicate = record raw {
        compiled_match_re = none;
        compiled_wildcard_re = none;
      } in
      elim (Bool-cases (is_supported_op p.kind p.op)) [
        | inr s ↦ elim (none-some q (rw s at h)) [ ]
        | inl s ↦ elim (Bool-cases (text_eq p.kind (codes "n"))) [
          | inl k ↦ elim (Bool-cases (is_some p.n)) [
            | inr o ↦ elim (none-some q (rw o at rw k at rw s at h)) [ ]
            | inl o ↦
                let whole : some p ≡ some q = rw o at rw k at rw s at h in
                let same : p ≡ q = cc in
                subst Ready same (
                  plain_Ready p s (λ _. o) (λ b. ground (arith, kind_clash p.kind))
                    (ground (arith, kind_clash p.kind)))
          ]
          | inr n ↦ elim (Bool-cases (text_eq p.kind (codes "s"))) [
            | inl k ↦ validate_text-Ready p q s k (rw k at rw n at rw s at h)
            | inr m ↦ elim (Bool-cases (text_eq p.kind (codes "b"))) [
              | inr l ↦ elim (no_kind p.kind p.op n m l s) [ ]
              | inl k ↦ elim (Bool-cases (is_some p.b)) [
                | inr o ↦ elim (none-some q (rw o at rw k at rw m at rw n at rw s at h)) [ ]
                | inl o ↦
                    let whole : some p ≡ some q = rw o at rw k at rw m at rw n at rw s at h in
                    let same : p ≡ q = cc in
                    subst Ready same (plain_Ready p s (λ y. ground arith) (λ _. o) m)
              ]
            ]
          ]
        ]
      ]
