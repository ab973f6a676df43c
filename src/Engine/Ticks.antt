-- ===== src/Engine/Ticks.antt =====
-- What a tick decides: the change of each alert, the silence timeout, and the firing IDs.
use malert.Base.{[], All, ◌≡◌, length, ◌≤◌, true, has_key}
use malert.Engine.State.{RuntimeState, States}
use malert.Engine.Tick.{Pass}
use malert.Engine.Lifecycle.{Fits, state_of, Reports}
use malert.Domain.{Decision}

-- The decisions of one pass: at most one, none if the state stays, and each reports the change.
abbrev PassFits : RuntimeState → Pass → Type 0
PassFits s p =
    All (λ d. (d.matched ≡ true) × Fits s.alert_id s.current_state p.state.current_state d)
      p.decisions
    × (p.decisions ≡ [] → p.state.current_state ≡ s.current_state)
    × (length p.decisions ≤ 1)

-- A decision about an alert that the engine holds, and the change that it reports.
pub record Told (states after : States) (d : Decision) : Type 0 where
  pub held : has_key d.alert_id states ≡ true
  pub reports : Reports d.alert_id (state_of d.alert_id states) (state_of d.alert_id after) d
