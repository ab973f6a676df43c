-- ===== src/Engine/Window.antt =====
-- The sliding window of `count_window`: what `pruneWindow` keeps, and what the running sum is.
use malert.Engine.State.{WindowPoint, prune_from, RuntimeState, prune_window}
use malert.Base.{
  Time, add_i64, List, keep, Int64, All, ◌∷◌, ◌≡◌, ◌≤◌, ◌++◌, ◌<◌, arith, Bool-cases, int64_mod,
  not, [], sub_i64, before, add_i64_comm, sym, add_i64_assoc, inl, refl, sub-add_i64, inr, ℕ,
  seconds, max_seconds, zero_time, mul_i64, leb_i64, ◌*◌, false, ◌-◌, All-append, leb_i64-nonneg,
  Duration, ◌∙◌, ap, All-keep,
}
use malert.Config.Rule.{RuleConfig}
use malert.Domain.Event.{Event}
use malert.Engine.Process.{push_window}

-- The sum of the counts, as an int64.
abbrev pub sum_counts : List WindowPoint → Int64
sum_counts [] = 0
sum_counts (p ∷ ps) = add_i64 p.count (sum_counts ps)

sum_counts-lt : (ps : List WindowPoint) → sum_counts ps < int64_mod
unfolding add_i64
sum_counts-lt [] = omega arith
sum_counts-lt (p ∷ ps) = omega arith

pub sum_counts-append :
    (ps : List WindowPoint) (p : WindowPoint)
    → sum_counts (ps ++ p ∷ []) ≡ add_i64 (sum_counts ps) p.count
sum_counts-append [] p = add_i64_comm p.count 0
sum_counts-append (q ∷ ps) p =
    rw (sum_counts-append ps p) (sym (add_i64_assoc q.count (sum_counts ps) p.count))

-- The loop takes the counts of the points that it drops off the sum.
pub prune_from-sum :
    (cutoff : Time) (ps : List WindowPoint)
    → (prune_from cutoff ps (sum_counts ps)).1 ≡ sum_counts (prune_from cutoff ps (sum_counts ps)).0
unfolding prune_from
prune_from-sum cutoff [] = refl
prune_from-sum cutoff (p ∷ ps) = elim (Bool-cases (before p.at cutoff)) [
  | inl e ↦
      rw (e, sub-add_i64 (sum_counts ps) p.count (sum_counts-lt ps)) (prune_from-sum cutoff ps)
  | inr e ↦ rw e
]

-- The points come oldest first, none after the bound.
abbrev pub Ordered : Time → List WindowPoint → Type 0
Ordered low [] = Unit
Ordered low (p ∷ ps) = (low ≤ p.at) × Ordered p.at ps

abbrev pub Until : Time → List WindowPoint → Type 0
Until now = All (λ p. p.at ≤ now)

abbrev pub recent : Time → List WindowPoint → List WindowPoint
recent cutoff = keep (λ p. not (before p.at cutoff))

keep_all :
    (cutoff low : Time) (ps : List WindowPoint)
    → cutoff ≤ low
    → Ordered low ps
    → recent cutoff ps ≡ ps
keep_all cutoff low [] h o = refl
keep_all cutoff low (p ∷ ps) h o = ground (arith, keep_all cutoff p.at ps)

-- On points in order the loop, which stops at the first recent point, is a filter.
pub prune_from-recent :
    (cutoff low : Time) (ps : List WindowPoint) (sum : Int64)
    → Ordered low ps
    → (prune_from cutoff ps sum).0 ≡ recent cutoff ps
unfolding prune_from
prune_from-recent cutoff low [] sum o = refl
prune_from-recent cutoff low (p ∷ ps) sum o =
    ground
      (arith, prune_from-recent cutoff p.at ps (sub_i64 sum p.count) o.1, keep_all cutoff p.at ps)

Ordered-append :
    (low : Time) (ps : List WindowPoint) (p : WindowPoint)
    → low ≤ p.at
    → Until p.at ps
    → Ordered low ps
    → Ordered low (ps ++ p ∷ [])
Ordered-append low [] p h u o = (h, tt)
Ordered-append low (q ∷ ps) p h u o = (o.0, Ordered-append q.at ps p u.0 u.1 o.1)

Ordered-weaken :
    (low high : Time) (ps : List WindowPoint) → low ≤ high → Ordered high ps → Ordered low ps
Ordered-weaken low high [] h o = tt
Ordered-weaken low high (p ∷ ps) h o = (omega arith, o.1)

Ordered-recent :
    (cutoff low : Time) (ps : List WindowPoint) → Ordered low ps → Ordered low (recent cutoff ps)
Ordered-recent cutoff low [] o = tt
Ordered-recent cutoff low (p ∷ ps) o = elim (Bool-cases (before p.at cutoff)) [
  | inl e ↦
      rw e (Ordered-weaken low p.at (recent cutoff ps) o.0 (Ordered-recent cutoff p.at ps o.1))
  | inr e ↦ rw e (o.0, Ordered-recent cutoff p.at ps o.1)
]

-- The window of a state, in order and not ahead of the time.
pub record InOrder (s : RuntimeState) (now : Time) : Type 0 where
  pub ordered : Ordered zero_time s.count_window
  pub until : Until now s.count_window

pub seconds-lt : (w : ℕ) → w ≤ max_seconds → seconds w ≡ w * 1000000000
unfolding seconds mul_i64
seconds-lt w h = omega arith

positive_seconds : (w : ℕ) → 0 < w → w ≤ max_seconds → leb_i64 (seconds w) 0 ≡ false
positive_seconds w p h =
    rw (seconds-lt w h)
      (leb_i64-nonneg (w * 1000000000) 0 (omega arith) (omega arith) ∙ ground arith)

abbrev pub new_point : Time → Int64 → WindowPoint
new_point now count = record { at = now; count = count }

-- A positive window keeps the points inside it, and takes the others off the sum.
prune_window-recent :
    (ps : List WindowPoint) (now w : ℕ)
    → 0 < w
    → w ≤ max_seconds
    → Ordered zero_time ps
    → (prune_window ps now (seconds w) (sum_counts ps)).0 ≡ recent (now - w * 1000000000) ps
unfolding prune_window
prune_window-recent ps now w p h o =
    rw (positive_seconds w p h, seconds-lt w h)
      (prune_from-recent (now - w * 1000000000) 0 ps (sum_counts ps) o)

pub prune_window-sum :
    (ps : List WindowPoint) (now : Time) (window : Duration)
    → (prune_window ps now window (sum_counts ps)).1
      ≡ sum_counts (prune_window ps now window (sum_counts ps)).0
unfolding prune_window
prune_window-sum ps now window = elim (Bool-cases (leb_i64 window 0)) [
  | inl e ↦ rw e
  | inr e ↦ rw e (prune_from-sum (now - window) ps)
]

-- A new event adds its count to the sum, and the pruning keeps the sum exact.
pub push_window-sum :
    (s : RuntimeState) (rule : RuleConfig) (event : Event) (now : Time)
    → s.count_window_sum ≡ sum_counts s.count_window
    → (push_window s rule event now).count_window_sum
      ≡ sum_counts (push_window s rule event now).count_window
unfolding push_window
push_window-sum s rule event now e =
    rw (e, ← (sum_counts-append s.count_window (new_point now event.agg_cnt)))
      (prune_window-sum (s.count_window ++ new_point now event.agg_cnt ∷ []) now
        (seconds rule.raise.window_sec))

module _ (s : RuntimeState) (rule : RuleConfig) (event : Event) (now : Time) where
  -- For a positive window length that a duration holds, on a window in order that is not ahead of
  -- the clock: a new event leaves exactly the points of the last window_sec seconds, its own among
  -- them, and again in order; and the running sum is the sum of their counts.
  pub push_window-recent :
      0 < rule.raise.window_sec
      → rule.raise.window_sec ≤ max_seconds
      → s.count_window_sum ≡ sum_counts s.count_window
      → InOrder s now
      → let t = push_window s rule event now in
        (t.count_window
          ≡ recent
              (now - rule.raise.window_sec * 1000000000)
              (s.count_window ++ new_point now event.agg_cnt ∷ []))
        × (t.count_window_sum ≡ sum_counts t.count_window)
        × InOrder t now
  unfolding push_window
  push_window-recent p h e o =
      let new = new_point now event.agg_cnt in
      let cutoff = now - rule.raise.window_sec * 1000000000 in
      let ordered = Ordered-append 0 s.count_window new (omega arith) o.until o.ordered in
      let until =
        All-append (λ (q : WindowPoint). q.at ≤ now) s.count_window (new ∷ []) o.until
          (omega arith) in
      let kept =
        prune_window-recent (s.count_window ++ new ∷ []) now rule.raise.window_sec p h ordered in
      let total = sum_counts-append s.count_window new in
      rw (e, ← total, kept)
        (
          refl,
          prune_window-sum (s.count_window ++ new ∷ []) now (seconds rule.raise.window_sec)
              ∙ ap sum_counts kept,
          record {
            ordered = Ordered-recent cutoff 0 (s.count_window ++ new ∷ []) ordered;
            until =
                All-keep (λ (q : WindowPoint). q.at ≤ now) (λ q. not (before q.at cutoff))
                  (s.count_window ++ new ∷ []) until;
          },
        )
