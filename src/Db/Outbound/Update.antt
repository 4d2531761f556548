-- ===== src/Db/Outbound/Update.antt =====
-- service/src/db.rs: `update_outbound_message` is carried out whole or not at all.
use green_relay.Prelude.{
  ℕ, ◌≡◌, refl, ap, sym, ◌∙◌, true, false, Option, none, some, arith, inl, inr, Result,
}
use green_relay.Text.{Text}
use green_relay.Models.{MessageStatus, OutboundMessage, Rfc3339}
use green_relay.Db.Rows.{find}
use green_relay.Db.{
  OutboundRow, Disk, Store, DbError, Sql, count_run, set_disk, some_ok, succeeded, after, ◌>>=◌,
  ◌>>◌, fetch, transaction, lift,
}
use green_relay.Db.Statement.{
  Executed, carried_out, execute-Executed, ensure_ready-cases, after-ok, undone, committed,
  transaction-Transacted, fetch-ok,
}
use green_relay.Db.Outbound.{
  has_id, set_status, update_status, found_some, fetched_one, update_and_read,
  update_outbound_message, outbound_from_row, some_message,
}
use green_relay.Db.Outbound.Laws.{row_in, row_at}
use green_relay.Db.Outbound.Statuses.{changed, found_some-row_at}

module _ (chrono : Rfc3339) (now id : ℕ) (status : MessageStatus) (ref code : Option Text) where
  -- What has been done if all steps of the transaction succeed.
  record IsUpdated (d d' : Disk) (m : OutboundMessage) : Type 0 where
    rows :
        (j : ℕ) → row_at d' j ≡ changed true id (set_status status ref code (chrono.print now)) d j
    read : some_message chrono (row_at d' id) ≡ Result.ok (some m)

  -- the steps after the `UPDATE`
  abbrev keep_read : Option OutboundRow → Sql OutboundMessage
  keep_read found = do row ← fetched_one found; lift (outbound_from_row chrono row)

  abbrev read_back : Sql OutboundMessage
  read_back = do found ← fetch (λ t. find (has_id id) t.outbound_messages.rows); keep_read found

  abbrev update_rest : ℕ → Sql OutboundMessage
  update_rest n = found_some n >> read_back

  fetched_one-ok :
      (o : Option OutboundRow) (s s' : Store) (r : OutboundRow)
      → fetched_one o s ≡ (s', Result.ok r)
      → (s ≡ s') × (o ≡ some r)
  fetched_one-ok none s s' r h = cc
  fetched_one-ok (some q) s s' r h = (cc, cc)

  found_some-ok :
      (n : ℕ) (s s' : Store) (u : Unit {0})
      → found_some n s ≡ (s', Result.ok u)
      → (s ≡ s') × (succeeded (found_some n s).1 ≡ true)
  found_some-ok n s s' u h = ground arith

  update_and_read-ok :
      (s s' : Store) (m : OutboundMessage)
      → update_and_read chrono now id status ref code s ≡ (s', Result.ok m)
      → IsUpdated s.disk s'.disk m
  unfolding row_at
  update_and_read-ok s s' m h =
      elim (execute-Executed (update_status id status ref code (chrono.print now)) s) [
        | Executed.failed x q ↦ cc (ap (after update_rest) q)
        | carried_out t t' n q1 q2 q3 ↦
            let s1 : Store = set_disk (count_run s) (record (s.disk) { tables = some t' }) in
            let h1 : after update_rest (s1, Result.ok n) ≡ (s', Result.ok m) =
              sym (ap (after update_rest) q3) ∙ h in
            let (s2, u, e1, e2) = after-ok (λ _. read_back) (found_some n s1) s' m h1 in
            let (s3, found, e3, e4) =
              after-ok keep_read (fetch (λ t. find (has_id id) t.outbound_messages.rows) s2) s' m
                e2 in
            let (t2, b1, b2, b3) =
              fetch-ok s2 (λ t. find (has_id id) t.outbound_messages.rows) s3 found e3 in
            let (s4, row, e5, e6) =
              after-ok (λ r. lift (outbound_from_row chrono r)) (fetched_one found s3) s' m e4 in
            let f : OutboundRow → OutboundRow = set_status status ref code (chrono.print now) in
            let same : s'.disk.tables ≡ some t2 =
              ap (λ (x : Store). x.disk.tables)
                (sym (ap (λ p. p.0) e6) ∙ sym (fetched_one-ok found s3 s4 row e5).0)
              ∙ b2 in
            let start : s2.disk.tables ≡ some t2 = b1 in
            let now_found : found ≡ some row = (fetched_one-ok found s3 s4 row e5).1 in
            record {
              rows = λ j.
                  ap (λ o. row_in o j) (same ∙ sym start)
                  ∙ (ap (λ (p : Store × Result Unit DbError). row_at p.0.disk j) (sym e1)
                      ∙ (found_some-row_at id status ref code (chrono.print now) t t' n q2 s s1 j q1
                            refl
                          ∙ ap (λ b. changed b id f s.disk j) (found_some-ok n s1 s2 u e1).1));
              read =
                  ap (λ o. some_message chrono (row_in o id)) same
                  ∙ (ap (some_message chrono) (sym b3 ∙ now_found) ∙ ap some_ok (ap (λ p. p.1) e6));
            }
      ]

  -- If the update fails, for whatever reason, the file is as it was; if it succeeds, the message has
  -- the new status, every other is as it was, and what is returned is what a reader now gets.
  pub record Settles (d : Disk) (r : Store × Result OutboundMessage DbError) : Type 0 where
    pub rows :
        (j : ℕ)
        → row_at r.0.disk j
          ≡ changed (succeeded r.1) id (set_status status ref code (chrono.print now)) d j
    pub read :
        (m : OutboundMessage)
        → r.1 ≡ Result.ok m
        → some_message chrono (row_at r.0.disk id) ≡ Result.ok (some m)
    pub untouched : succeeded r.1 ≡ false → r.0.disk ≡ d

  transaction-Settles :
      (s : Store) → Settles s.disk (transaction (update_and_read chrono now id status ref code) s)
  transaction-Settles s =
      elim (transaction-Transacted (update_and_read chrono now id status ref code) s) [
        | undone e q1 q2 ↦ record {
          rows = λ j. rw (q1, q2) refl;
          read = λ m h. cc;
          untouched = λ h. q2;
        }
        | committed s' a q1 q2 ↦
            let u : IsUpdated s.disk s'.disk a = update_and_read-ok (count_run s) s' a q1 in
            rw q2 (record { rows = u.rows; read = λ m h. u.read ∙ cc; untouched = λ h. cc })
      ]

  -- An update of a message succeeds with what the row of that id then reads as, and changes that
  -- row alone, to the values given; or it fails and leaves the database file as it was.
  pub update_outbound_message-Settles :
      (s : Store) → Settles s.disk (update_outbound_message chrono now id status ref code s)
  unfolding update_outbound_message
  update_outbound_message-Settles s = elim (ensure_ready-cases s) [
    | inl e ↦ rw e (transaction-Settles s)
    | inr e ↦ rw e (record { rows = λ j. refl; read = λ m h. cc; untouched = λ h. refl })
  ]
