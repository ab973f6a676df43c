-- ===== src/Ingest/Pool.antt =====
-- internal/ingest/codec.go: the scratch that goes back into the pool.
use malert.Base.{
  All, length, ℕ, zero, suc, ◌≤◌, ◌≡◌, refl, ap, List, [], ◌∷◌, ltb, Bool-cases, inl, inr, arith,
}
use malert.Ingest.Codec.{
  DecodeScratch, zero_event, max_pooled_batch_capacity, first_of, clear_first,
  release_decode_scratch, repeat_zero, new_scratch,
}
use malert.Domain.Event.{Event}

length-clear_first : (n : ℕ) (events : List Event) → length (clear_first n events) ≡ length events
unfolding clear_first
length-clear_first zero events = refl
length-clear_first (suc n) [] = refl
length-clear_first (suc n) (e ∷ events) = ap suc (length-clear_first n events)

clear_first_of :
    (n : ℕ) (events : List Event) → All (λ e. e ≡ zero_event) (first_of n (clear_first n events))
unfolding first_of clear_first
clear_first_of zero events = tt
clear_first_of (suc n) [] = tt
clear_first_of (suc n) (e ∷ events) = (refl, clear_first_of n events)

first_of_zeros :
    (n : ℕ) (events : List Event)
    → All (λ e. e ≡ zero_event) events
    → All (λ e. e ≡ zero_event) (first_of n events)
unfolding first_of
first_of_zeros zero events h = tt
first_of_zeros (suc n) [] h = tt
first_of_zeros (suc n) (e ∷ events) h = (h.0, first_of_zeros n events h.1)

repeat_zeros : (n : ℕ) → All (λ e. e ≡ zero_event) (repeat_zero n)
repeat_zeros zero = tt
repeat_zeros (suc n) = (refl, repeat_zeros n)

-- A released scratch has no events and keeps at most 4096 elements; those that its slice had are
-- cleared.
pub release_decode_scratch-bounds :
    (scratch : DecodeScratch)
    → ((release_decode_scratch scratch).length ≡ 0)
      × (length (release_decode_scratch scratch).array ≤ max_pooled_batch_capacity)
      × All (λ e. e ≡ zero_event) (first_of scratch.length (release_decode_scratch scratch).array)
unfolding release_decode_scratch
release_decode_scratch-bounds scratch =
    elim (Bool-cases
      (ltb max_pooled_batch_capacity (length (clear_first scratch.length scratch.array)))) [
        | inl large ↦
            rw large
              (refl, omega arith, first_of_zeros scratch.length new_scratch.array (repeat_zeros 16))
        | inr small ↦
            rw small (refl, ground (arith, small), clear_first_of scratch.length scratch.array)
      ]
