-- ===== src/Reaper/Laws.antt =====
-- service/src/lib.rs: what a cycle of `reap_queued_messages` leaves as it is.
use green_relay.Prelude.{
  ℕ, ◌≡◌, ◌≢◌, ◌⊎◌, some, ◌*◌, refl, ap, sym, ◌∙◌, Bool, true, false, List, [], ◌∷◌, Option, none,
  ◌==◌, Bool-cases, inl, inr, Result, All, All-map, take, retain, ==_iff, ◌-◌,
}
use green_relay.Text.{Text, codes, text_eq}
use green_relay.Text.Equality.{text_eq_sound}
use green_relay.Text.Order.{text_lt}
use green_relay.Models.{as_db_str, MessageStatus, queued, sent, failed, OutboundMessage, Rfc3339}
use green_relay.Modem.Send.{SendResult}
use green_relay.Db.Rows.{order_by}
use green_relay.Db.{OutboundRow, Tables, after, lift, Store, DbError, succeeded, fetch}
use green_relay.Db.Statement.{fetch-tables}
use green_relay.Db.Outbound.{
  set_outbound_status, is_waiting, older, collect, set_status, queued_outbound_messages,
  outbound_from_row,
}
use green_relay.Db.Outbound.Laws.{row_at, row_in, IsNumbered}
use green_relay.Db.Outbound.Statuses.{set_outbound_status-row_at, changed}
use green_relay.Db.Outbound.Waiting.{waits, queued_outbound_messages-waits}
use green_relay.Reaper.{
  Reaped, mark, reap_by, reap_all, reap_found, reap_queued_messages, queued_reap_grace,
  queued_reap_batch,
}

-- What comes after a look at the tables, and looks at none, leaves the store.
after_lift :
    {A B : Type 0} (g : A → Result B DbError) (r : Store × Result A DbError)
    → (after (λ a. lift (g a)) r).0 ≡ r.0
after_lift g (s, Result.ok a) = refl
after_lift g (s, Result.err e) = refl

abbrev found_rows : Text → Tables → List OutboundRow
found_rows older_than t =
    take queued_reap_batch
      (order_by older (retain (is_waiting older_than) t.outbound_messages.rows))

module _ (chrono : Rfc3339) (now : ℕ) (clock : ℕ → ℕ) (j : ℕ) where
  mark_other :
      (id : ℕ) (status : MessageStatus) (reference detail : Option Text) (s : Reaped)
      → (id == j) ≡ false
      → row_at (mark chrono now clock id status reference detail s).store.disk j
        ≡ row_at s.store.disk j
  unfolding row_at
  mark_other id status reference detail s e =
      set_outbound_status-row_at chrono (clock id) id status reference detail s.store j
      ∙ skipped
          (succeeded (set_outbound_status chrono (clock id) id status reference detail s.store).1)
    where
      skipped :
          (b : Bool)
          → changed b id
              (set_status status reference detail (chrono.print (clock id)))
              s.store.disk
              j
            ≡ row_at s.store.disk j
      skipped true = rw e refl
      skipped false = refl

  reap_by_other :
      (id : ℕ) (r : SendResult) (status : MessageStatus) (s : Reaped)
      → (id == j) ≡ false
      → row_at (reap_by chrono now clock id r status s).store.disk j ≡ row_at s.store.disk j
  reap_by_other id r sent s e = mark_other id sent r.reference none s e
  reap_by_other id r failed s e = mark_other id failed none _ s e
  reap_by_other id r queued s e = refl

  reap_all_other :
      (send : Text → Text → SendResult) (ms : List OutboundMessage) (s : Reaped)
      → All (λ m. (m.id == j) ≡ false) ms
      → row_at (reap_all chrono now clock send ms s).store.disk j ≡ row_at s.store.disk j
  unfolding reap_all
  reap_all_other send [] s h = refl
  reap_all_other send (m ∷ ms) s h =
      let r : SendResult = send m.to_number m.body in
      reap_all_other send ms (reap_by chrono now clock m.id r r.status s) h.1
      ∙ reap_by_other m.id r r.status s h.0

  apart :
      (s : Store) (m : OutboundMessage)
      → waits chrono (chrono.print (now - queued_reap_grace)) (row_at s.disk j) ≡ false
      → waits chrono (chrono.print (now - queued_reap_grace)) (row_at s.disk m.id) ≡ true
      → (m.id == j) ≡ false
  apart s m h k = elim (Bool-cases (m.id == j)) [
    | inl e ↦
        let same : m.id ≡ j = (==_iff m.id j).0 e in
        cc (
          sym k
          ∙ (ap (λ i. waits chrono (chrono.print (now - queued_reap_grace)) (row_at s.disk i)) same
              ∙ h))
    | inr e ↦ e
  ]

  looked-tables :
      (s s' : Store) (r : Result (List OutboundMessage) DbError)
      → queued_outbound_messages chrono (chrono.print (now - queued_reap_grace)) queued_reap_batch s
        ≡ (s', r)
      → s'.disk.tables ≡ s.disk.tables
  unfolding queued_outbound_messages
  looked-tables s s' r h =
      ap (λ x. x.0.disk.tables) (sym h)
      ∙ (ap (λ x. x.disk.tables)
            (after_lift (collect (outbound_from_row chrono))
              (fetch (found_rows (chrono.print (now - queued_reap_grace))) s))
          ∙ fetch-tables (found_rows (chrono.print (now - queued_reap_grace))) s)

  reap_found_other :
      (send : Text → Text → SendResult) (s : Reaped)
      (r : Store × Result (List OutboundMessage) DbError)
      → queued_outbound_messages chrono
          (chrono.print (now - queued_reap_grace))
          queued_reap_batch
          s.store
        ≡ r
      → IsNumbered s.store.disk
      → waits chrono (chrono.print (now - queued_reap_grace)) (row_at s.store.disk j) ≡ false
      → row_at (reap_found chrono now clock send s.published r).store.disk j ≡ row_at s.store.disk j
  unfolding row_at
  reap_found_other send s (s', Result.ok ms) q n h =
      reap_all_other send ms (record { store = s'; published = s.published })
        (All-map ms (λ m k. apart s.store m h k)
          (queued_outbound_messages-waits chrono (chrono.print (now - queued_reap_grace))
            queued_reap_batch s.store s' ms n q))
      ∙ ap (λ o. row_in o j) (looked-tables s.store s' (Result.ok ms) q)
  reap_found_other send s (s', Result.err e) q n h =
      ap (λ o. row_in o j) (looked-tables s.store s' (Result.err e) q)

  -- The message is not queued, or was created no earlier than five minutes ago.
  abbrev pub IsLeft : OutboundRow → Type 0
  IsLeft r =
      (r.status ≢ codes "queued")
      ⊎ (text_lt r.created_at (chrono.print (now - 300 * 1000000000)) ≡ false)

  left-waits :
      (r : OutboundRow) → IsLeft r → is_waiting (chrono.print (now - queued_reap_grace)) r ≡ false
  unfolding as_db_str
  left-waits r (inl n) = elim (Bool-cases (text_eq r.status (codes "queued"))) [
    | inl e ↦ absurd (n (text_eq_sound r.status (codes "queued") e))
    | inr e ↦ rw e refl
  ]
  left-waits r (inr young) = elim (Bool-cases (text_eq r.status (codes "queued"))) [
    | inl e ↦ rw (e, young) refl
    | inr e ↦ rw e refl
  ]

  -- A cycle of the reaper leaves the row of every message as it is whose status is not "queued" or
  -- whose time of creation, as text, is not before the text of the time five minutes ago, if the
  -- ids of the messages ascend; whatever the modem answers and whichever statements fail.
  pub reap_queued_messages_keeps :
      (send : Text → Text → SendResult) (s : Reaped) (r : OutboundRow)
      → IsNumbered s.store.disk
      → row_at s.store.disk j ≡ some r
      → IsLeft r
      → row_at (reap_queued_messages chrono now clock send s).store.disk j ≡ some r
  unfolding reap_queued_messages
  reap_queued_messages_keeps send s r n found left =
      reap_found_other send s
        (queued_outbound_messages chrono (chrono.print (now - queued_reap_grace)) queued_reap_batch
          s.store)
        refl n (rw found (left-waits r left))
      ∙ found
