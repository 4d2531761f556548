-- ===== src/Models.antt =====
-- service/src/models.rs: the status of a message and the rows of the tables.
use green_relay.Prelude.{ℕ, ◌≡◌, Option, none, some, if◌then◌else◌}
use green_relay.Text.{Text, codes, text_eq}

pub data MessageStatus : Type 0 where
  queued sent failed : MessageStatus

unfoldable pub as_db_str : MessageStatus → Text
as_db_str queued = codes "queued"
as_db_str sent = codes "sent"
as_db_str failed = codes "failed"

unfoldable pub from_db_str : Text → Option MessageStatus
from_db_str s =
    if text_eq s (codes "queued")
    then some queued
    else if text_eq s (codes "sent")
    then some sent
    else if text_eq s (codes "failed")
    then some failed
    else none

-- a time is the number of nanoseconds since some epoch; an id is a row of the database
pub record OutboundMessage : Type 0 where
  pub id : ℕ
  pub to_number : Text
  pub body : Text
  pub status : MessageStatus
  pub part_count : ℕ
  pub msg_reference : Option Text
  pub error_code : Option Text
  pub created_at : ℕ
  pub updated_at : ℕ

pub record InboundMessage : Type 0 where
  pub id : ℕ
  pub from_number : Text
  pub body : Text
  pub received_at : ℕ

-- chrono's `DateTime::to_rfc3339` and `parse_from_rfc3339`
pub record Rfc3339 : Type 0 where
  pub print : ℕ → Text
  pub parse : Text → Option ℕ

-- What is printed is read back.
pub record RoundTrips (chrono : Rfc3339) : Type 0 where
  pub parse_print : (t : ℕ) → chrono.parse (chrono.print t) ≡ some t
