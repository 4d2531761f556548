-- ===== src/Api/Read/Laws.antt =====
-- service/src/api/v1.rs: what the routes that read can answer.
use green_relay.Prelude.{
  ℕ, ◌≤◌, ◌≡◌, ◌≢◌, refl, false, List, [], ◌∷◌, Option, none, some, arith, Result,
}
use green_relay.Models.{MessageStatus, OutboundMessage, InboundMessage, Rfc3339}
use green_relay.Db.{
  OutboundRow, InboundRow, Store, DbError, is_not_ready, some_ok, fetch, after, Tables, lift,
}
use green_relay.Db.Rows.{find}
use green_relay.Db.Statement.{failed, carried_out, execute-Executed}
use green_relay.Db.Outbound.{
  get_outbound_message, outbound_from_row, some_message, message_of, both, collect, has_id,
}
use green_relay.Db.Inbound.{list_inbound_messages, inbound_from_row, message_at, page}
use green_relay.Api.{ApiConfig}
use green_relay.Api.Read.{
  ℤ, Pagination, resolve, clamp, pos, negsuc, inbound_handler, outbound_status_handler, listed,
  shown, db_error_response,
}

-- No error says that the schema is not ready.
abbrev IsOther : {A : Type 0} → Result A DbError → Type 0
IsOther (Result.ok a) = Unit {0}
IsOther (Result.err e) = is_not_ready e ≡ false

fetch-IsOther :
    {A B : Type 0} (f : Tables → A) (g : A → Result B DbError) (s : Store)
    → ((a : A) → IsOther (g a))
    → IsOther (after (λ a. lift (g a)) (fetch f s)).1
unfolding fetch is_not_ready
fetch-IsOther f g s h = elim (execute-Executed (λ t. Result.ok (t, f t)) s) [
  | failed e q ↦ rw q refl
  | carried_out t t' a q1 q2 q3 ↦ rw q3 (h a)
]

message_of-IsOther :
    (r : OutboundRow) (s : Option MessageStatus) (c u : Option ℕ) → IsOther (message_of r s c u)
unfolding is_not_ready
message_of-IsOther r (some s) (some c) (some u) = tt
message_of-IsOther r (some s) (some c) none = refl
message_of-IsOther r (some s) none u = refl
message_of-IsOther r none c u = refl

message_at-IsOther : (r : InboundRow) (t : Option ℕ) → IsOther (message_at r t)
unfolding is_not_ready
message_at-IsOther r none = refl
message_at-IsOther r (some t) = tt

some_ok-IsOther : {A : Type 0} (r : Result A DbError) → IsOther r → IsOther (some_ok r)
some_ok-IsOther (Result.ok a) h = tt
some_ok-IsOther (Result.err e) h = h

both-IsOther :
    {A : Type 0} (r : Result A DbError) (l : Result (List A) DbError)
    → IsOther r
    → IsOther l
    → IsOther (both r l)
both-IsOther (Result.ok a) (Result.ok l) h k = tt
both-IsOther (Result.ok a) (Result.err e) h k = k
both-IsOther (Result.err e) l h k = h

collect-IsOther :
    {R A : Type 0} (f : R → Result A DbError) (rs : List R)
    → ((r : R) → IsOther (f r))
    → IsOther (collect f rs)
collect-IsOther f [] h = tt
collect-IsOther f (r ∷ rs) h = both-IsOther (f r) (collect f rs) (h r) (collect-IsOther f rs h)

module _ (chrono : Rfc3339) (config : ApiConfig) where
  some_message-IsOther : (o : Option OutboundRow) → IsOther (some_message chrono o)
  unfolding outbound_from_row
  some_message-IsOther none = tt
  some_message-IsOther (some r) =
      some_ok-IsOther (outbound_from_row chrono r) (message_of-IsOther r _ _ _)

  shown-code :
      (r : Store × Result (Option OutboundMessage) DbError)
      → IsOther r.1
      → (shown chrono config r).1.code ≢ 503
  unfolding db_error_response
  shown-code (s, Result.ok (some m)) h = omega arith
  shown-code (s, Result.ok none) h = omega arith
  shown-code (s, Result.err e) h = rw h (omega arith)

  listed-code :
      (r : Store × Result (List InboundMessage) DbError)
      → IsOther r.1
      → (listed chrono config r).1.code ≢ 503
  unfolding db_error_response
  listed-code (s, Result.ok l) h = omega arith
  listed-code (s, Result.err e) h = rw h (omega arith)

  pub outbound_status_handler-ne-503 :
      (id : ℕ) (s : Store) → (outbound_status_handler chrono config id s).1.code ≢ 503
  unfolding outbound_status_handler get_outbound_message
  outbound_status_handler-ne-503 id s = shown-code (get_outbound_message chrono id s) (
      fetch-IsOther (λ t. find (has_id id) t.outbound_messages.rows) (some_message chrono) s
        some_message-IsOther)

  pub inbound_handler-ne-503 :
      (p : Pagination) (s : Store) → (inbound_handler chrono config p s).1.code ≢ 503
  unfolding inbound_handler list_inbound_messages inbound_from_row
  inbound_handler-ne-503 p s =
      let (limit, offset) = resolve p in
      listed-code (list_inbound_messages chrono limit offset s) (
        fetch-IsOther (λ t. page chrono limit offset t.inbound_messages.rows)
          (collect (inbound_from_row chrono)) s
          (λ rows. collect-IsOther (inbound_from_row chrono) rows (λ r. message_at-IsOther r _)))

  -- Neither the status of an outbound message nor the list of inbound messages is ever answered
  -- 503, whether the schema is ready or not.
  pub read_routes-ne-503 :
      (id : ℕ) (p : Pagination) (s : Store)
      → ((outbound_status_handler chrono config id s).1.code ≢ 503)
        × ((inbound_handler chrono config p s).1.code ≢ 503)
  read_routes-ne-503 id p s = (outbound_status_handler-ne-503 id s, inbound_handler-ne-503 p s)

clamp_bounds : (n : ℤ) → (1 ≤ clamp n) × (clamp n ≤ 1000)
clamp_bounds (pos n) = ground (arith)
clamp_bounds (negsuc n) = omega arith
