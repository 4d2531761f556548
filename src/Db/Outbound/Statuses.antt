-- ===== src/Db/Outbound/Statuses.antt =====
-- service/src/db.rs: reading a message back, and changing its status.
use green_relay.Prelude.{
  ℕ, ◌<◌, ◌≡◌, refl, ap, sym, ◌∙◌, Bool, true, false, ◌&&◌, Option, some, arith, ◌==◌,
  if◌then◌else◌, Bool-cases, ==_iff, inl, inr, Result,
}
use green_relay.Text.{Text}
use green_relay.Models.{
  MessageStatus, as_db_str, from_db_str, OutboundMessage, Rfc3339, RoundTrips, queued, sent, failed,
}
use green_relay.Db.Rows.{find, update, affected, update_none, find-update, map_some}
use green_relay.Db.{
  OutboundRow, Tables, Disk, Store, some_ok, succeeded, count_run, set_disk, after,
}
use green_relay.Db.Statement.{
  Executed, carried_out, execute-Executed, ensure_ready-cases, fetch_runs,
}
use green_relay.Db.Outbound.{
  has_id, set_status, new_row, new_message, update_status, found_some, create_outbound_message,
  get_outbound_message, set_outbound_status, outbound_from_row, some_message,
}
use green_relay.Db.Outbound.Laws.{row_in, row_at, IsNumbered, Added, create-Added, create-row_at}

pub from_db-as_db : (status : MessageStatus) → from_db_str (as_db_str status) ≡ some status
unfolding from_db_str as_db_str
from_db-as_db queued = refl
from_db-as_db sent = refl
from_db-as_db failed = refl

module _ (chrono : Rfc3339) where
  pub get_runs :
      (i : ℕ) (s : Store) (t : Tables)
      → s.fails s.ran ≡ false
      → s.disk.tables ≡ some t
      → get_outbound_message chrono i s ≡ (count_run s, some_message chrono (row_at s.disk i))
  unfolding get_outbound_message row_at
  get_runs i s t e q =
      ap (after (λ found s2. (s2, some_message chrono found)))
        (fetch_runs (λ u. find (has_id i) u.outbound_messages.rows) s t e q)
      ∙ ap (λ o. (count_run s, some_message chrono (row_in o i))) (sym q)

  module _ (law : RoundTrips chrono) (now : ℕ) (to body : Text) (status : MessageStatus)
      (parts : ℕ) where
    new_row-message :
        (i : ℕ)
        → parts < 256
        → outbound_from_row chrono (new_row chrono to body status parts now i)
          ≡ Result.ok (new_message chrono to body status parts now i)
    unfolding outbound_from_row
    new_row-message i small = rw (from_db-as_db status, law.parse_print now) (ground arith)

    -- A message with fewer than 256 parts that has been created, in a table whose ids ascend, is
    -- read back under its id as it was returned, if times are read back from their text and the
    -- read does not fail.
    pub get-create :
        (s s' : Store) (m : OutboundMessage)
        → parts < 256
        → IsNumbered s.disk
        → create_outbound_message chrono now to body status parts s ≡ (s', Result.ok m)
        → s'.fails s'.ran ≡ false
        → (get_outbound_message chrono m.id s').1 ≡ Result.ok (some m)
    get-create s s' m small n done e =
        let a : Added chrono now to body status parts s.disk s'.disk m =
          create-Added chrono now to body status parts s s' m done in
        let found : row_at s'.disk m.id ≡ some (new_row chrono to body status parts now m.id) =
          create-row_at chrono now to body status parts s s' m done m.id n
          ∙ rw ((==_iff m.id m.id).1 refl) refl in
        ap (λ r. r.1) (get_runs m.id s' _ e (ap (λ d. d.tables) a.after))
        ∙ (ap (some_message chrono) found
            ∙ (ap some_ok (new_row-message m.id small)
                ∙ ap (λ i. Result.ok (some i))
                    (ap (λ i. new_message chrono to body status parts now i)
                        (ap (λ x. x.id) a.shown)
                      ∙ sym a.shown)))

-- The rows after a change of status: only that of the message, and only if the change succeeds.
abbrev pub changed : Bool → ℕ → (OutboundRow → OutboundRow) → Disk → ℕ → Option OutboundRow
changed done id f d j = if done && id == j then map_some f (row_at d j) else row_at d j

-- What the `UPDATE` does to the rows.
module _ (id : ℕ) (status : MessageStatus) (ref code : Option Text) (now_text : Text)
    (t t' : Tables) (n : ℕ)
    (done : update_status id status ref code now_text t ≡ Result.ok (t', n)) where
  update_status-row_in :
      (j : ℕ)
      → row_in (some t') j ≡ (
          if id == j
          then map_some (set_status status ref code now_text) (row_in (some t) j)
          else row_in (some t) j)
  unfolding update_status
  update_status-row_in j =
      let f : OutboundRow → OutboundRow = set_status status ref code now_text in
      let rows : t'.outbound_messages.rows ≡ update (has_id id) f t.outbound_messages.rows = cc in
      ap (find (has_id j)) rows
      ∙ find-update (λ (r : OutboundRow). r.id) id j (set_status status ref code now_text)
          t.outbound_messages.rows (λ r. refl)

  update_status-none : (j : ℕ) → (n == 0) ≡ true → row_in (some t') j ≡ row_in (some t) j
  unfolding update_status
  update_status-none j e =
      let f : OutboundRow → OutboundRow = set_status status ref code now_text in
      let rows : t'.outbound_messages.rows ≡ update (has_id id) f t.outbound_messages.rows = cc in
      let m : n ≡ affected (has_id id) t.outbound_messages.rows = cc in
      ap (find (has_id j))
        (rows ∙ update_none (has_id id) f t.outbound_messages.rows (sym m ∙ (==_iff n 0).0 e))

  pub found_some-row_at :
      (s s' : Store) (j : ℕ)
      → s.disk.tables ≡ some t
      → s'.disk.tables ≡ some t'
      → row_at (found_some n s').0.disk j
        ≡ changed (succeeded (found_some n s').1) id (set_status status ref code now_text) s.disk j
  unfolding row_at
  found_some-row_at s s' j q d = elim (Bool-cases (n == 0)) [
    | inl e ↦ rw e (rw (d, q) (update_status-none j e))
    | inr e ↦ rw e (rw (d, q) (update_status-row_in j))
  ]

module _ (chrono : Rfc3339) (now id : ℕ) (status : MessageStatus) (ref code : Option Text)
    (s : Store) where
  -- Whether it succeeds or not, a change of status leaves every other message as it is.
  pub set_outbound_status-row_at :
      (j : ℕ)
      → row_at (set_outbound_status chrono now id status ref code s).0.disk j
        ≡ changed
            (succeeded (set_outbound_status chrono now id status ref code s).1)
            id
            (set_status status ref code (chrono.print now))
            s.disk
            j
  unfolding set_outbound_status
  set_outbound_status-row_at j = elim (ensure_ready-cases s) [
    | inl e ↦
        rw e (elim (execute-Executed (update_status id status ref code (chrono.print now)) s) [
          | Executed.failed x q ↦ rw q refl
          | carried_out t t' n q1 q2 q3 ↦ rw q3 (
              found_some-row_at id status ref code (chrono.print now) t t' n q2 s
                (set_disk (count_run s) (record (s.disk) { tables = some t' })) j q1 refl)
        ])
    | inr e ↦ rw e refl
  ]
