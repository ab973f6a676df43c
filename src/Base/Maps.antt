-- ===== src/Base/Maps.antt =====
-- A Go map with string keys as an association list. The order of the list is the order of one
-- `range` over the map, so a theorem over every list covers every order. A nil map is empty.
use mathlib.Core.Path.{◌≡◌, refl, sym, ap, subst, subst₂}
use mathlib.Core.Bool.{Bool, true, false}
use mathlib.Core.Logic.{◌≢◌, inl, inr}
use mathlib.Core.Option.{Option, none, some}
use mathlib.Core.List.{List, [], ◌∷◌}
use native.Mathlib.Omega.{arith}
use malert.Base.Tests.{if◌then◌else◌, is_some, Bool-cases}
use Prim.Native.Nat.{suc}
use malert.Base.Lists.{length}
use malert.Base.Texts.{Text, text_eq, text_eq_iff, text_eq_refl, text_eq-flip}

abbrev pub Assoc {ℓ} : Type ℓ → Type ℓ
Assoc V = List (Text × V)

module _ {ℓ} {V : Type ℓ} where
  -- `v, ok := m[k]`.
  unfoldable pub lookup : Text → Assoc V → Option V
  lookup k [] = none
  lookup k ((j, v) ∷ m) = if text_eq j k then some v else lookup k m

  -- `m[k] = v`.
  unfoldable pub insert : Text → V → Assoc V → Assoc V
  insert k v [] = (k, v) ∷ []
  insert k v ((j, w) ∷ m) = if text_eq j k then (j, v) ∷ m else (j, w) ∷ insert k v m

  -- `delete(m, k)`.
  unfoldable pub delete : Text → Assoc V → Assoc V
  delete k [] = []
  delete k ((j, w) ∷ m) = let rest = delete k m in if text_eq j k then rest else (j, w) ∷ rest

  abbrev pub has_key : Text → Assoc V → Bool
  has_key k m = is_some (lookup k m)

  pub lookup-insert :
      (k j : Text) (v : V) (m : Assoc V)
      → lookup j (insert k v m) ≡ (if text_eq k j then some v else lookup j m)
  unfolding lookup insert
  lookup-insert k j v [] = refl
  lookup-insert k j v ((i, w) ∷ m) =
      ground (arith, text_eq_iff k j, text_eq_iff i k, text_eq_iff i j, lookup-insert k j v m)

  pub lookup-delete :
      (k j : Text) (m : Assoc V)
      → lookup j (delete k m) ≡ (if text_eq k j then none else lookup j m)
  unfolding lookup delete
  lookup-delete k j [] = ground arith
  lookup-delete k j ((i, w) ∷ m) =
      ground (arith, text_eq_iff k j, text_eq_iff i k, text_eq_iff i j, lookup-delete k j m)

  pub lookup-insert_self : (k : Text) (v : V) (m : Assoc V) → lookup k (insert k v m) ≡ some v
  lookup-insert_self k v m = simp (lookup-insert, text_eq_refl)

  pub lookup-insert_ne :
      (k j : Text) (v : V) (m : Assoc V) → k ≢ j → lookup j (insert k v m) ≡ lookup j m
  lookup-insert_ne k j v m h = ground (arith, lookup-insert k j v m, text_eq_iff k j)

  pub lookup-delete_self : (k : Text) (m : Assoc V) → lookup k (delete k m) ≡ none
  lookup-delete_self k m = simp (lookup-delete, text_eq_refl)

  pub lookup-delete_ne : (k j : Text) (m : Assoc V) → k ≢ j → lookup j (delete k m) ≡ lookup j m
  lookup-delete_ne k j m h = ground (arith, lookup-delete k j m, text_eq_iff k j)

  -- No key twice.
  abbrev pub Fresh : Text → Assoc V → Type 0
  Fresh k [] = Unit
  Fresh k ((j, w) ∷ m) = (text_eq j k ≡ false) × Fresh k m

  abbrev pub Distinct : Assoc V → Type 0
  Distinct [] = Unit
  Distinct ((j, w) ∷ m) = Fresh j m × Distinct m

  module _ {κ} (P : Text → V → Type κ) where
    -- Every entry satisfies the predicate.
    abbrev pub Entries : Assoc V → Type κ
    Entries [] = Unit
    Entries ((j, w) ∷ m) = P j w × Entries m

    pub Entries-insert :
        (k : Text) (v : V) (m : Assoc V) → P k v → Entries m → Entries (insert k v m)
    unfolding insert
    Entries-insert k v [] p h = (p, tt)
    Entries-insert k v ((j, w) ∷ m) p h = elim (Bool-cases (text_eq j k)) [
      | inl e ↦ rw e (subst (λ i. P i v) (sym ((text_eq_iff j k).0 e)) p, h.1)
      | inr e ↦ rw e (h.0, Entries-insert k v m p h.1)
    ]

    pub Entries-delete : (k : Text) (m : Assoc V) → Entries m → Entries (delete k m)
    unfolding delete
    Entries-delete k [] h = h
    Entries-delete k ((j, w) ∷ m) h = elim (Bool-cases (text_eq j k)) [
      | inl e ↦ rw e (Entries-delete k m h.1)
      | inr e ↦ rw e (h.0, Entries-delete k m h.1)
    ]

    pub Entries-lookup : (k : Text) (v : V) (m : Assoc V) → Entries m → lookup k m ≡ some v → P k v
    unfolding lookup
    Entries-lookup k v [] h e = cc
    Entries-lookup k v ((j, w) ∷ m) h e = elim (Bool-cases (text_eq j k)) [
      | inl q ↦
          let same : some w ≡ some v = rw q at e in
          let value : w ≡ v = cc in subst₂ P ((text_eq_iff j k).0 q) value h.0
      | inr q ↦ Entries-lookup k v m h.1 (rw q at e)
    ]

  pub Fresh-insert :
      (j k : Text) (v : V) (m : Assoc V) → text_eq k j ≡ false → Fresh j m → Fresh j (insert k v m)
  unfolding insert
  Fresh-insert j k v [] e h = (e, tt)
  Fresh-insert j k v ((i, w) ∷ m) e h = ground (arith, Fresh-insert j k v m e h.1)

  pub Fresh-delete : (j k : Text) (m : Assoc V) → Fresh j m → Fresh j (delete k m)
  unfolding delete
  Fresh-delete j k [] h = h
  Fresh-delete j k ((i, w) ∷ m) h = ground (arith, Fresh-delete j k m h.1)

  pub Distinct-insert : (k : Text) (v : V) (m : Assoc V) → Distinct m → Distinct (insert k v m)
  unfolding insert
  Distinct-insert k v [] h = (tt, tt)
  Distinct-insert k v ((j, w) ∷ m) h = elim (Bool-cases (text_eq j k)) [
    | inl e ↦ rw e h
    | inr e ↦ rw e (Fresh-insert j k v m (text_eq-flip j k e) h.0, Distinct-insert k v m h.1)
  ]

  pub Distinct-delete : (k : Text) (m : Assoc V) → Distinct m → Distinct (delete k m)
  unfolding delete
  Distinct-delete k [] h = h
  Distinct-delete k ((j, w) ∷ m) h = elim (Bool-cases (text_eq j k)) [
    | inl e ↦ rw e (Distinct-delete k m h.1)
    | inr e ↦ rw e (Fresh-delete j k m h.0, Distinct-delete k m h.1)
  ]

  pub lookup_of_Fresh : (k : Text) (m : Assoc V) → Fresh k m → lookup k m ≡ none
  unfolding lookup
  lookup_of_Fresh k [] h = refl
  lookup_of_Fresh k ((j, w) ∷ m) h = rw h.0 (lookup_of_Fresh k m h.1)

  delete_of_Fresh : (k : Text) (m : Assoc V) → Fresh k m → delete k m ≡ m
  unfolding delete
  delete_of_Fresh k [] h = refl
  delete_of_Fresh k ((j, w) ∷ m) h = ground (arith, delete_of_Fresh k m h.1)

  -- Deleting a key that is there takes one entry off.
  pub length-delete :
      (k : Text) (m : Assoc V)
      → Distinct m
      → has_key k m ≡ true
      → suc (length (delete k m)) ≡ length m
  unfolding delete lookup
  length-delete k [] d h = cc
  length-delete k ((j, w) ∷ m) d h = elim (Bool-cases (text_eq j k)) [
    | inl e ↦ rw (e, delete_of_Fresh k m (subst (λ i. Fresh i m) ((text_eq_iff j k).0 e) d.0))
    | inr e ↦ rw e (ap suc (length-delete k m d.1 (rw e at h)))
  ]
