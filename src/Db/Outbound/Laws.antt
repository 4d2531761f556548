-- ===== src/Db/Outbound/Laws.antt =====
-- service/src/db.rs: what the statements on outbound_messages do to the rows.
use green_relay.Prelude.{
  ℕ, suc, ◌≡◌, refl, Option, none, some, arith, ◌==◌, if◌then◌else◌, inl, inr, Result,
}
use mathlib.Core.Path.{subst}
use green_relay.Text.{Text}
use green_relay.Models.{MessageStatus, OutboundMessage, Rfc3339, failed}
use green_relay.Db.Rows.{find, insert_row, Ascends, find_fresh, find-insert, Ascends-insert}
use green_relay.Db.{OutboundRow, Tables, Disk, Store, DbError}
use green_relay.Db.Statement.{failed, carried_out, execute-Executed, ensure_ready-cases}
use green_relay.Db.Outbound.{
  has_id, new_row, new_message, set_outbound, insert_outbound, create_outbound_message,
}

-- The row with an id.
abbrev pub row_in : Option Tables → ℕ → Option OutboundRow
row_in none i = none
row_in (some t) i = find (has_id i) t.outbound_messages.rows

unfoldable pub row_at : Disk → ℕ → Option OutboundRow
row_at d i = row_in d.tables i

abbrev pub NumberedIn : Option Tables → Type 0
NumberedIn none = Unit {0}
NumberedIn (some t) =
    Ascends (λ (r : OutboundRow). r.id) 0 t.outbound_messages.seq t.outbound_messages.rows

-- The ids of the messages ascend, and none is above the largest that was given.
pub record IsNumbered (d : Disk) : Type 0 where
  pub rows : NumberedIn d.tables

module _ (chrono : Rfc3339) (now : ℕ) (to body : Text) (status : MessageStatus) (parts : ℕ)
    (s : Store) where
  -- A message is put into the table, or nothing is changed.
  pub data Created (r : Store × Result OutboundMessage DbError) : Type 0 where
    refused : (e : DbError) → r.1 ≡ Result.err e → r.0.disk ≡ s.disk → Created r
    created :
        (t t' : Tables) (id : ℕ)
        → s.disk.tables ≡ some t
        → insert_outbound chrono to body status parts now t ≡ Result.ok (t', id)
        → r.1 ≡ Result.ok (new_message chrono to body status parts now id)
        → r.0.disk ≡ record (s.disk) { tables = some t' }
        → Created r

  pub create-Created : Created (create_outbound_message chrono now to body status parts s)
  unfolding create_outbound_message
  create-Created = elim (ensure_ready-cases s) [
    | inl e ↦ rw e (elim (execute-Executed (insert_outbound chrono to body status parts now) s) [
      | failed x q ↦ rw q (refused _ refl refl)
      | carried_out t t' id q1 q2 q3 ↦ rw q3 (created t t' id q1 q2 refl refl)
    ])
    | inr e ↦ rw e (refused _ refl refl)
  ]

-- A message that is put into the table: the file before and after.
pub record Added (chrono : Rfc3339) (now : ℕ) (to body : Text) (status : MessageStatus) (parts : ℕ)
    (d d' : Disk) (m : OutboundMessage) : Type 0 where
  pub t : Tables
  pub before : d.tables ≡ some t
  pub shown : m ≡ new_message chrono to body status parts now (suc t.outbound_messages.seq)
  pub after : d' ≡ record d {
    tables =
        some (
          set_outbound t
            (insert_row (new_row chrono to body status parts now) t.outbound_messages));
  }

module _ (chrono : Rfc3339) (now : ℕ) (to body : Text) (status : MessageStatus) (parts : ℕ)
    (s s' : Store) (m : OutboundMessage)
    (done : create_outbound_message chrono now to body status parts s ≡ (s', Result.ok m)) where
  pub create-Added : Added chrono now to body status parts s.disk s'.disk m
  unfolding insert_row
  create-Added =
      elim (subst (Created chrono now to body status parts s) done
        (create-Created chrono now to body status parts s)) [
          | refused e q d ↦ cc
          | created t t' id q1 q2 q3 q4 ↦ record { t = t; before = q1; shown = cc; after = cc }
        ]

  pub create-row_at :
      (j : ℕ)
      → IsNumbered s.disk
      → row_at s'.disk j ≡ (
          if m.id == j
          then some (new_row chrono to body status parts now m.id)
          else row_at s.disk j)
  unfolding row_at
  create-row_at j n =
      let a : Added chrono now to body status parts s.disk s'.disk m = create-Added in
      rw (a.after, a.before, a.shown)
        (find-insert (λ (r : OutboundRow). r.id) (new_row chrono to body status parts now)
          (a.t.outbound_messages) j (subst NumberedIn a.before n.rows) (λ i. refl))

  pub create-fresh : IsNumbered s.disk → row_at s.disk m.id ≡ none
  unfolding row_at
  create-fresh n =
      let a : Added chrono now to body status parts s.disk s'.disk m = create-Added in
      rw (a.before, a.shown)
        (find_fresh (λ (r : OutboundRow). r.id) 0 (a.t.outbound_messages.seq)
          (suc a.t.outbound_messages.seq) (a.t.outbound_messages.rows)
          (subst NumberedIn a.before n.rows) (omega arith))

  pub create-IsNumbered : IsNumbered s.disk → IsNumbered s'.disk
  create-IsNumbered n =
      let a : Added chrono now to body status parts s.disk s'.disk m = create-Added in
      record {
        rows = rw a.after (
            Ascends-insert (λ (r : OutboundRow). r.id) (new_row chrono to body status parts now)
              (a.t.outbound_messages) (subst NumberedIn a.before n.rows) (λ i. refl));
      }
