-- ===== src/Config/Rule.antt =====
-- internal/config/config.go: the types of a rule, and the time after which its alerts resolve.
use malert.Base.{ℕ, Bool, Option, List, Text, Duration, Int64, Assoc, add_i64, seconds}
use malert.Domain.Event.{Float64}

-- `alert_type`; any other string is kept in `other_type`.
pub data AlertType : Type 0 where
  count_total count_window missing_heartbeat : AlertType
  other_type : Text → AlertType

-- A compiled regular expression is the test that it makes of a text.
abbrev pub Regexp : Type 0
Regexp = Text → Bool

pub record RuleValuePredicate : Type 0 where
  pub kind : Text
  pub op : Text
  pub n : Option Float64
  pub s : Option Text
  pub b : Option Bool
  pub in_values : List Text
  pub compiled_match_re : Option Regexp
  pub compiled_wildcard_re : Option Regexp

pub record RuleMatch : Type 0 where
  pub kinds : List Text
  pub vars : List Text
  pub tags : Assoc (List Text)
  pub value : Option RuleValuePredicate

pub record RuleKey : Type 0 where
  pub from_tags : List Text

pub record RuleRaise : Type 0 where
  pub n : Int64
  pub window_sec : Int64
  pub missing_sec : Int64

pub record RuleResolve : Type 0 where
  pub silence_sec : Int64
  pub hysteresis_sec : Int64

pub record RulePending : Type 0 where
  pub enabled : Bool
  pub delay_sec : Int64

pub record RuleNotifyRoute : Type 0 where
  pub name : Text
  pub channel : Text
  pub template : Text
  pub mode : Text

pub record CompiledNotifyOffWindow : Type 0 where
  pub weekdays : List ℕ
  pub from_minute : ℕ
  pub to_minute : ℕ

pub record RuleNotifyOff : Type 0 where
  pub days : List Text
  pub from : Text
  pub to : Text
  pub compiled : Option CompiledNotifyOffWindow

pub record RuleNotify : Type 0 where
  pub repeat : Option Bool
  pub repeat_every_sec : Int64
  pub on_pending : Option Bool
  pub route : List RuleNotifyRoute
  pub off : List RuleNotifyOff

pub record RuleOutOfOrder : Type 0 where
  pub max_late_ms : Int64
  pub max_future_skew_ms : Int64

pub record RuleConfig : Type 0 where
  pub name : Text
  pub alert_type : AlertType
  pub match : RuleMatch
  pub key : RuleKey
  pub raise : RuleRaise
  pub resolve : RuleResolve
  pub pending : RulePending
  pub notify : RuleNotify
  pub out_of_order : RuleOutOfOrder

-- `ResolveTimeout`.
unfoldable pub resolve_timeout : RuleConfig → Duration
resolve_timeout rule = elim rule.alert_type [
  | count_total ↦ seconds (add_i64 rule.resolve.silence_sec rule.resolve.hysteresis_sec)
  | count_window ↦ seconds (add_i64 rule.resolve.silence_sec rule.resolve.hysteresis_sec)
  | missing_heartbeat ↦ seconds (add_i64 rule.raise.missing_sec rule.resolve.hysteresis_sec)
  | other_type t ↦ 0
]
