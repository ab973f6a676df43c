-- ===== src/State/Conflicts.antt =====
-- internal/state/nats_store.go: `isNATSCardConflict` finds the errors with which a bucket refuses a
-- write, whatever case the client's Unicode tables give to the other characters of their texts.
use malert.State.Nats.{KvError, NatsKv, contains, is_nats_card_conflict}
use malert.State.Buckets.{KeyExists, WrongSequence}
use malert.Base.{
  before, Text, codes, has_prefix, has_prefix-append, ascii_lower, Unicode, to_lower, ◌<◌, ◌≡◌,
  refl, ap, true, [], ◌∷◌, ◌++◌, arith, ltb, ◌==◌, sym, subst, Bool, ◌&&◌,
}

-- A text of ASCII characters, none of them in upper case.
unfoldable is_lower_ascii : Text → Bool
unfolding ascii_lower
is_lower_ascii [] = true
is_lower_ascii (c ∷ s) = let rest = is_lower_ascii s in ltb c 128 && ascii_lower c == c && rest

to_lower-is_lower_ascii : (u : Unicode) (s : Text) → is_lower_ascii s ≡ true → to_lower u s ≡ s
unfolding to_lower is_lower_ascii
to_lower-is_lower_ascii u [] h = refl
to_lower-is_lower_ascii u (c ∷ s) h =
    let small : c < 128 = ground (arith, h) in
    let same : ascii_lower c ≡ c = ground (arith, h) in
    let rest : is_lower_ascii s ≡ true = ground (arith, h) in
    rw (u.lower_ascii c small, same, to_lower-is_lower_ascii u s rest) refl

to_lower-++ : (u : Unicode) (a b : Text) → to_lower u (a ++ b) ≡ to_lower u a ++ to_lower u b
unfolding to_lower
to_lower-++ u [] b = refl
to_lower-++ u (c ∷ a) b = ap (λ s. u.lower c ∷ s) (to_lower-++ u a b)

contains-prefix : (part rest : Text) → contains (part ++ rest) part ≡ true
unfolding contains has_prefix
contains-prefix [] [] = refl
contains-prefix [] (c ∷ rest) = refl
contains-prefix (c ∷ part) rest = rw (has_prefix-append (c ∷ part) rest) refl

contains-++ : (before part rest : Text) → contains (before ++ (part ++ rest)) part ≡ true
unfolding contains
contains-++ [] part rest = contains-prefix part rest
contains-++ (c ∷ before) part rest = ground (arith, contains-++ before part rest)

lowered-part :
    (u : Unicode) (front part rest : Text)
    → is_lower_ascii part ≡ true
    → contains (to_lower u (front ++ (part ++ rest))) part ≡ true
lowered-part u front part rest h =
    rw
      (
        to_lower-++ u front (part ++ rest),
        to_lower-++ u part rest,
        to_lower-is_lower_ascii u part h,
      )
      (contains-++ (to_lower u front) part (to_lower u rest))

module _ {N : Type 0} (kv : NatsKv N) (u : Unicode) where
  pub KeyExists-conflict : (e : KvError) → KeyExists e → is_nats_card_conflict kv u e ≡ true
  unfolding is_nats_card_conflict
  KeyExists-conflict e h = rw h refl

  pub WrongSequence-conflict :
      (e : KvError) → WrongSequence kv e → is_nats_card_conflict kv u e ≡ true
  unfolding is_nats_card_conflict is_lower_ascii ascii_lower
  WrongSequence-conflict e (t, front, rest, h, text) =
      let part = codes "wrong last sequence" in
      rw (h, is_nats_card_conflict)
        (subst (λ x. contains (to_lower u x) part ≡ true) (sym text)
          (lowered-part u front part rest refl))
