-- ===== src/Config/Notify.antt =====
-- internal/config/config.go: the notify section of a configuration. The repeat list `repeat_on`,
-- which no code reads, is a field like the others.
use malert.Base.{Assoc, Int64, Text, Bool, List}

pub record NamedTemplateConfig : Type 0 where
  pub name : Text
  pub message : Text

pub record NotifyRetry : Type 0 where
  pub enabled : Bool
  pub backoff : Text
  pub initial_ms : Int64
  pub max_ms : Int64
  pub max_attempts : Int64
  pub log_each_attempt : Bool

pub record NotifyQueue : Type 0 where
  pub enabled : Bool
  pub url : List Text
  pub ack_wait_sec : Int64
  pub nack_delay_ms : Int64
  pub max_deliver : Int64
  pub max_ack_pending : Int64
  pub dlq : Bool

pub record TelegramNotifier : Type 0 where
  pub enabled : Bool
  pub bot_token : Text
  pub chat_id : Text
  pub active_chat_id : Text
  pub api_base : Text
  pub retry : NotifyRetry
  pub name_template : List NamedTemplateConfig

pub record HttpNotifier : Type 0 where
  pub enabled : Bool
  pub url : Text
  pub method : Text
  pub timeout_sec : Int64
  pub headers : Assoc Text
  pub retry : NotifyRetry
  pub name_template : List NamedTemplateConfig

pub record MattermostConfig : Type 0 where
  pub enabled : Bool
  pub base_url : Text
  pub bot_token : Text
  pub channel_id : Text
  pub active_channel_id : Text
  pub timeout_sec : Int64
  pub retry : NotifyRetry
  pub name_template : List NamedTemplateConfig

pub record TrackerAuthConfig : Type 0 where
  pub kind : Text
  pub username : Text
  pub password : Text
  pub token : Text
  pub header : Text
  pub prefix : Text

pub record TrackerActionConfig : Type 0 where
  pub method : Text
  pub path : Text
  pub headers : Assoc Text
  pub body_template : Text
  pub success_status : List Int64
  pub ref_json_path : Text

pub record TrackerNotifier : Type 0 where
  pub enabled : Bool
  pub base_url : Text
  pub timeout_sec : Int64
  pub auth : TrackerAuthConfig
  pub create : TrackerActionConfig
  pub resolve : TrackerActionConfig
  pub retry : NotifyRetry
  pub name_template : List NamedTemplateConfig

pub record NotifyConfig : Type 0 where
  pub repeat : Bool
  pub repeat_every_sec : Int64
  pub repeat_on : List Text
  pub repeat_per_channel : Bool
  pub on_pending : Bool
  pub queue : NotifyQueue
  pub telegram : TelegramNotifier
  pub http : HttpNotifier
  pub mattermost : MattermostConfig
  pub jira : TrackerNotifier
  pub youtrack : TrackerNotifier
