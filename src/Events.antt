-- ===== src/Events.antt =====
-- service/src/events.rs: the events. The bus is a broadcast channel; publishing never fails, and what
-- is published is kept in order.
use green_relay.Prelude.{ℕ, List, [], ◌∷◌, ◌++◌, Option}
use green_relay.Text.{Text, codes}
use green_relay.Models.{MessageStatus}
use green_relay.Modem.Io.{InboundSmsEvent}

pub record MessageStatusEvent : Type 0 where
  pub id : ℕ
  pub status : MessageStatus
  pub reference : Option Text

pub data ServiceEvent : Type 0 where
  message_status : MessageStatusEvent → ServiceEvent
  inbound_sms : InboundSmsEvent → ServiceEvent

unfoldable pub name : ServiceEvent → Text
name (message_status e) = codes "message_status"
name (inbound_sms e) = codes "inbound_sms"

abbrev pub publish : List ServiceEvent → ServiceEvent → List ServiceEvent
publish sent e = sent ++ e ∷ []
