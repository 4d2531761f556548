-- ===== src/Modem/Io.antt =====
-- service/src/modem/transport.rs: `SerialTransport` as a monad. What the port will read is a list of
-- readings, one for each call of `read_line`, and whether a write fails depends on how many came
-- before it; so every behaviour of a port in a finite run is an instance. The writes are logged.
-- Behind the port the world holds the rows of the database and the events that were published.
use green_relay.Prelude.{
  ℕ, Bool, List, [], ◌∷◌, ◌++◌, Option, none, some, if◌then◌else◌, length, Result,
}
use green_relay.Text.{Text}

-- A line arrives, the time is up, or the port is lost.
pub data Reading : Type 0 where
  line : Text → Reading
  elapsed lost : Reading

pub data IoError : Type 0 where
  port_lost : IoError

-- an incoming message, as it is published
pub record InboundSmsEvent : Type 0 where
  pub id : ℕ
  pub from : Text
  pub body : Text

pub record World (R : Type 0) : Type 0 where
  pub readings : List Reading
  pub write_fails : ℕ → Bool
  pub log : List (List ℕ)
  pub rows : R
  pub published : List InboundSmsEvent

abbrev pub Io : Type 0 → Type 0 → Type 0
Io R A = World R → World R × Result A IoError

abbrev pub after :
    {A B R : Type 0} → (A → Io R B) → World R × Result A IoError → World R × Result B IoError
after f (w, Result.ok a) = f a w
after f (w, Result.err e) = (w, Result.err e)

infixl 5 ◌>>=◌ ◌>>◌
abbrev pub ◌>>=◌ : {R A B : Type 0} → Io R A → (A → Io R B) → Io R B
(m >>= f) w = after f (m w)

abbrev pub ◌>>◌ : {R A B : Type 0} → Io R A → Io R B → Io R B
m >> k = m >>= λ _. k

abbrev pub pure : {R A : Type 0} → A → Io R A
pure a w = (w, Result.ok a)

-- what a reading is as the result of `read_line`
abbrev pub reading_result : Reading → Result (Option Text) IoError
reading_result (line l) = Result.ok (some l)
reading_result elapsed = Result.ok none
reading_result lost = Result.err port_lost

module _ {R : Type 0} where
  abbrev pub log_write : World R → List ℕ → World R
  log_write w bytes = record w { log = w.log ++ bytes ∷ [] }

  -- `write_bytes`
  unfoldable pub write_bytes : List ℕ → Io R Unit
  write_bytes bytes w =
      if w.write_fails (length w.log)
      then (w, Result.err port_lost)
      else (log_write w bytes, Result.ok tt)

  abbrev pub take_reading : World R → List Reading → World R × Result (Option Text) IoError
  take_reading w [] = (w, Result.ok none)
  take_reading w (r ∷ rest) = (record w { readings = rest }, reading_result r)

  -- `read_line`; after the last reading the time is always up
  unfoldable pub read_line : Io R (Option Text)
  read_line w = take_reading w w.readings
