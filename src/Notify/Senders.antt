-- ===== src/Notify/Senders.antt =====
-- internal/notify/notify.go: the senders of the channels behind the interface `ChannelSender`.
use malert.Domain.{Notification}
use malert.Permanent.{GoError}
use malert.Base.{Duration, seconds, Text, trim_space, Unicode, to_lower, ◌⊎◌}
use malert.Notify.Http.{HttpClient, send_http}
use malert.Notify.Mattermost.{MattermostWorld, send_mattermost}
use malert.Notify.Retry.{Sender}
use malert.Notify.Dispatcher.{Transports}
use malert.Notify.Telegram.{TelegramBot, new_telegram_sender, send_telegram}
use malert.Notify.Tracker.{TrackerWorld, new_tracker_sender, send_tracker}
use malert.Config.Defaults.{positive_or}
use malert.Config.Channels.{channel_telegram, channel_http, channel_mattermost}
use malert.Config.Notify.{TelegramNotifier, HttpNotifier, MattermostConfig, TrackerNotifier}

-- What the senders call: the Bot API, HTTP clients with their timeouts, and the libraries.
pub record SenderWorld (S : Type 0) : Type 1 where
  pub new_bot : Text → Text → GoError ⊎ TelegramBot S
  pub new_client : Duration → HttpClient S
  pub tracker : HttpClient S → TrackerWorld S
  pub mattermost : HttpClient S → MattermostWorld S
  pub upper : Text → Text
  pub marshal : Notification → GoError ⊎ Text
  pub unicode : Unicode

module _ {S : Type 0} (w : SenderWorld S) where
  unfoldable pub telegram_sender : TelegramNotifier → Sender S
  unfolding new_telegram_sender send_telegram
  telegram_sender cfg = record {
    channel = channel_telegram;
    send = send_telegram w.unicode (new_telegram_sender w.new_bot cfg);
  }

  -- `NewHTTPScenarioSender`.
  unfoldable pub http_sender : HttpNotifier → Sender S
  unfolding send_http seconds
  http_sender cfg = record {
    channel = channel_http;
    send = send_http (w.new_client (seconds cfg.timeout_sec)) w.upper w.marshal cfg;
  }

  -- `NewMattermostSender`.
  unfoldable pub mattermost_sender : MattermostConfig → Sender S
  unfolding send_mattermost seconds
  mattermost_sender cfg = record {
    channel = channel_mattermost;
    send =
        send_mattermost (w.mattermost (w.new_client (seconds (positive_or cfg.timeout_sec 10)))) cfg
          w.unicode;
  }

  unfoldable pub tracker_sender : Text → TrackerNotifier → Sender S
  unfolding new_tracker_sender send_tracker to_lower seconds
  tracker_sender channel cfg =
      let world = w.tracker (w.new_client (seconds cfg.timeout_sec)) in
      record {
        channel = to_lower world.unicode (trim_space channel);
        send = λ s n. send_tracker world (new_tracker_sender world channel cfg) n s;
      }

  -- The constructors that `channelSenderFactories` calls.
  unfoldable pub transports : Transports S
  unfolding telegram_sender http_sender mattermost_sender tracker_sender
  transports = record {
    new_telegram_sender = telegram_sender;
    new_http_sender = http_sender;
    new_mattermost_sender = mattermost_sender;
    new_tracker_sender = tracker_sender;
  }
