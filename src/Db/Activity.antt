-- ===== src/Db/Activity.antt =====
-- service/src/db.rs: the rows of the activity feed; service/src/admin/dashboard.rs: the feed.
use green_relay.Prelude.{
  ℕ, ◌+◌, ◌-◌, ◌*◌, Bool, not, ◌&&◌, List, [], ◌∷◌, ◌++◌, Option, none, some, leb, take, retain,
  map,
}
use green_relay.Text.{Text, codes}
use green_relay.Text.Order.{text_lt}
use green_relay.Models.{Rfc3339}
use green_relay.Health.{ServiceHealth, ModemStatusSnapshot, derive_health}
use green_relay.Db.Rows.{order_by}
use green_relay.Db.{OutboundRow, InboundRow, Sql, ◌>>=◌, pure, fetch}

pub record OutboundActivityRow : Type 0 where
  pub created_at : ℕ
  pub status : Text
  pub to_number : Text

pub record InboundActivityRow : Type 0 where
  pub received_at : ℕ
  pub from_number : Text

abbrev pub newest_outbound : OutboundRow → OutboundRow → Bool
newest_outbound a b = not (text_lt a.created_at b.created_at)

abbrev pub newest_inbound : InboundRow → InboundRow → Bool
newest_inbound a b = not (text_lt a.received_at b.received_at)

-- a row whose time cannot be read is left out
abbrev pub push_read : {A : Type 0} → Option ℕ → (ℕ → A) → List A → List A
push_read none f l = l
push_read (some t) f l = f t ∷ l

module _ (chrono : Rfc3339) where
  abbrev pub outbound_rows : List OutboundRow → List OutboundActivityRow
  outbound_rows [] = []
  outbound_rows (r ∷ rs) =
      push_read (chrono.parse r.created_at)
        (λ t. record { created_at = t; status = r.status; to_number = r.to_number })
        (outbound_rows rs)

  abbrev pub inbound_rows : List InboundRow → List InboundActivityRow
  inbound_rows [] = []
  inbound_rows (r ∷ rs) =
      push_read (chrono.parse r.received_at)
        (λ t. record { received_at = t; from_number = r.from_number }) (inbound_rows rs)

  unfoldable pub recent_outbound_activity : Text → Sql (List OutboundActivityRow)
  unfolding fetch order_by text_lt
  recent_outbound_activity cutoff = fetch (λ t. outbound_rows (
      take 50 (
        order_by newest_outbound
          (retain (λ r. not (text_lt r.created_at cutoff)) t.outbound_messages.rows))))

  unfoldable pub recent_inbound_activity : Text → Sql (List InboundActivityRow)
  unfolding fetch order_by text_lt
  recent_inbound_activity cutoff = fetch (λ t. inbound_rows (
      take 50 (
        order_by newest_inbound
          (retain (λ r. not (text_lt r.received_at cutoff)) t.inbound_messages.rows))))

abbrev pub recent_activity_limit : ℕ
recent_activity_limit = 10

pub record ActivityEntry : Type 0 where
  pub timestamp : ℕ
  pub description : Text

-- 24 hours in nanoseconds
abbrev pub day : ℕ
day = 24 * 3600 * 1000000000

abbrev pub is_recent : ℕ → ActivityEntry → Bool
is_recent now e = leb e.timestamp now && leb now (e.timestamp + day)

abbrev pub not_older : ActivityEntry → ActivityEntry → Bool
not_older a b = leb b.timestamp a.timestamp

unfoldable pub recent_activity : List ActivityEntry → ℕ → List ActivityEntry
unfolding order_by
recent_activity entries now =
    take recent_activity_limit (order_by not_older (retain (is_recent now) entries))

abbrev pub sent_entry : OutboundActivityRow → ActivityEntry
sent_entry r = record {
  timestamp = r.created_at;
  description = codes "Outbound to " ++ r.to_number ++ codes " (" ++ r.status ++ codes ")";
}

abbrev pub received_entry : InboundActivityRow → ActivityEntry
received_entry r = record {
  timestamp = r.received_at;
  description = codes "Inbound from " ++ r.from_number;
}

pub record DashboardData : Type 0 where
  pub health : ServiceHealth
  pub signal_percent : Option ℕ
  pub recent : List ActivityEntry

module _ (chrono : Rfc3339) where
  unfoldable pub recent_message_activity : ℕ → Sql (List ActivityEntry)
  unfolding recent_outbound_activity recent_inbound_activity
  recent_message_activity now = do
    let cutoff = chrono.print (now - day)
    outbound ← recent_outbound_activity chrono cutoff
    inbound ← recent_inbound_activity chrono cutoff
    pure (map sent_entry outbound ++ map received_entry inbound)

  unfoldable pub dashboard_data : ModemStatusSnapshot → ℕ → Sql DashboardData
  unfolding recent_message_activity recent_activity derive_health
  dashboard_data snapshot now = do
    recent ← recent_message_activity now
    pure (record {
      health = derive_health snapshot;
      signal_percent = snapshot.signal_percent;
      recent = recent_activity recent now;
    })
