-- ===== src/Db/Outbound/Waiting.antt =====
-- service/src/db.rs: which messages `queued_outbound_messages` gives.
use green_relay.Prelude.{
  ℕ, zero, suc, ◌<◌, ◌≡◌, refl, ap, ◌∙◌, Bool, true, false, List, [], ◌∷◌, Option, none, some,
  Bool-cases, inl, inr, Result, All, All-map, take, retain,
}
use mathlib.Core.Path.{subst}
use green_relay.Text.{Text}
use green_relay.Models.{MessageStatus, OutboundMessage, Rfc3339}
use green_relay.Db.Rows.{insert_by, order_by, find_own}
use green_relay.Db.{OutboundRow, Tables, Store, DbError, fetch, lift}
use green_relay.Db.Statement.{after-ok, fetch-ok}
use green_relay.Db.Outbound.{
  is_waiting, older, message_of, both, collect, outbound_from_row, queued_outbound_messages,
}
use green_relay.Db.Outbound.Laws.{row_in, row_at, NumberedIn, IsNumbered}

module _ {R : Type 0} (P : R → Type 0) where
  All-retain : (p : R → Bool) (rs : List R) → All P rs → All (λ r. P r × (p r ≡ true)) (retain p rs)
  All-retain p [] h = tt
  All-retain p (r ∷ rs) h = elim (Bool-cases (p r)) [
    | inl e ↦ rw e ((h.0, e), All-retain p rs h.1)
    | inr e ↦ rw e (All-retain p rs h.1)
  ]

  All-take : (n : ℕ) (rs : List R) → All P rs → All P (take n rs)
  All-take zero rs h = tt
  All-take (suc n) [] h = tt
  All-take (suc n) (r ∷ rs) h = (h.0, All-take n rs h.1)

  All-insert_by :
      (before : R → R → Bool) (r : R) (rs : List R) → P r → All P rs → All P (insert_by before r rs)
  unfolding insert_by
  All-insert_by before r [] p h = (p, tt)
  All-insert_by before r (q ∷ rs) p h = elim (Bool-cases (before r q)) [
    | inl e ↦ rw e (p, h)
    | inr e ↦ rw e (h.0, All-insert_by before r rs p h.1)
  ]

  All-order_by : (before : R → R → Bool) (rs : List R) → All P rs → All P (order_by before rs)
  unfolding order_by
  All-order_by before [] h = tt
  All-order_by before (r ∷ rs) h =
      All-insert_by before r (order_by before rs) h.0 (All-order_by before rs h.1)

module _ (chrono : Rfc3339) (cutoff : Text) where
  -- The message with an id is queued and was created before the time given.
  abbrev pub waits : Option OutboundRow → Bool
  waits none = false
  waits (some r) = is_waiting cutoff r

  message_of-id :
      (r : OutboundRow) (s : Option MessageStatus) (c u : Option ℕ) (m : OutboundMessage)
      → message_of r s c u ≡ Result.ok m
      → m.id ≡ r.id
  message_of-id r (some s) (some c) (some u) m h = cc
  message_of-id r (some s) (some c) none m h = cc
  message_of-id r (some s) none u m h = cc
  message_of-id r none c u m h = cc

  both-ok :
      {A : Type 0} (r : Result A DbError) (l : Result (List A) DbError) (ms : List A)
      → both r l ≡ Result.ok ms
      → (a : A) × (as' : List A) × (r ≡ Result.ok a) × (l ≡ Result.ok as') × (ms ≡ a ∷ as')
  both-ok (Result.ok a) (Result.ok l) ms h = (a, l, refl, refl, cc)
  both-ok (Result.ok a) (Result.err e) ms h = cc
  both-ok (Result.err e) l ms h = cc

  collect-All :
      (P : ℕ → Type 0) (rs : List OutboundRow) (ms : List OutboundMessage)
      → collect (outbound_from_row chrono) rs ≡ Result.ok ms
      → All (λ r. P r.id) rs
      → All (λ m. P m.id) ms
  unfolding outbound_from_row
  collect-All P [] [] h k = tt
  collect-All P [] (m ∷ ms) h k = cc
  collect-All P (r ∷ rs) ms h k =
      let (m, ms', q1, q2, q3) =
        both-ok (outbound_from_row chrono r) (collect (outbound_from_row chrono) rs) ms h in
      rw q3 (rw (message_of-id r _ _ _ m q1) k.0, collect-All P rs ms' q2 k.1)

  found_waits :
      (t : Tables)
      → NumberedIn (some t)
      → All
          (λ r. waits (row_in (some t) r.id) ≡ true)
          (retain (is_waiting cutoff) t.outbound_messages.rows)
  found_waits t n =
      All-map (retain (is_waiting cutoff) t.outbound_messages.rows) (λ r p. ap waits p.0.1 ∙ p.1)
        (All-retain (λ r. (0 < r.id) × (row_in (some t) r.id ≡ some r)) (is_waiting cutoff)
          t.outbound_messages.rows
          (find_own (λ (r : OutboundRow). r.id) 0 t.outbound_messages.seq t.outbound_messages.rows
            n))

  -- Every message that is given is one that waits.
  pub queued_outbound_messages-waits :
      (limit : ℕ) (s s' : Store) (ms : List OutboundMessage)
      → IsNumbered s.disk
      → queued_outbound_messages chrono cutoff limit s ≡ (s', Result.ok ms)
      → All (λ m. waits (row_at s.disk m.id) ≡ true) ms
  unfolding queued_outbound_messages row_at
  queued_outbound_messages-waits limit s s' ms n h =
      let f : Tables → List OutboundRow =
        λ t. take limit (order_by older (retain (is_waiting cutoff) t.outbound_messages.rows)) in
      let (s1, rows, q1, q2) =
        after-ok (λ rows. lift (collect (outbound_from_row chrono) rows)) (fetch f s) s' ms h in
      let (t, b1, b2, b3) = fetch-ok s f s1 rows q1 in
      collect-All (λ i. waits (row_in s.disk.tables i) ≡ true) rows ms (ap (λ r. r.1) q2)
        (rw (b3, b1)
          (All-take (λ r. waits (row_in (some t) r.id) ≡ true) limit
            (order_by older (retain (is_waiting cutoff) t.outbound_messages.rows))
            (All-order_by (λ r. waits (row_in (some t) r.id) ≡ true) older
              (retain (is_waiting cutoff) t.outbound_messages.rows)
              (found_waits t (subst NumberedIn b1 n.rows)))))
