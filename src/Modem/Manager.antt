-- ===== src/Modem/Manager.antt =====
-- service/src/modem/mod.rs: the manager that opens the serial port again and again. What becomes of
-- each attempt to open it is an argument; the pauses and the end are what the manager does.
use green_relay.Prelude.{
  ℕ, zero, suc, ◌+◌, ◌≤◌, ◌<◌, ◌≡◌, refl, ap, false, List, [], ◌∷◌, ◌++◌, Option, none, some, ltb,
  if◌then◌else◌, map, u32_max, saturating_add_u32, arith,
}
use green_relay.Modem.Protocol.Backoff.{
  reconnect_backoff_secs, reconnect_backoff_schedule, schedule_from,
}

-- One turn of the loop: the port does not open, or it opens and is lost later, in the recovery, the
-- initialization or the session, or the session ends because the command channel is closed.
pub data Connection : Type 0 where
  not_opened lost_later channel_closed : Connection

pub data Happening : Type 0 where
  slept : ℕ → Happening
  gave_up shut_down : Happening

-- the new count of attempts and the delay, if there is another attempt
unfoldable pub backoff_or_giveup : ℕ → ℕ → ℕ × Option ℕ
backoff_or_giveup reopen_max_attempts attempt =
    let attempt' = saturating_add_u32 attempt 1 in
    if ltb reopen_max_attempts attempt'
    then (attempt', none)
    else (attempt', some (reconnect_backoff_secs attempt'))

abbrev pub sleep_or_stop : Option ℕ → List Happening → List Happening
sleep_or_stop none rest = gave_up ∷ []
sleep_or_stop (some delay) rest = slept delay ∷ rest

-- the loop of `run_modem_manager`, with the count of attempts
unfoldable pub run_modem_manager : ℕ → ℕ → List Connection → List Happening
unfolding backoff_or_giveup
run_modem_manager reopen_max_attempts attempt [] = []
run_modem_manager reopen_max_attempts attempt (not_opened ∷ connections) =
    let (attempt', delay) = backoff_or_giveup reopen_max_attempts attempt in
    sleep_or_stop delay (run_modem_manager reopen_max_attempts attempt' connections)
run_modem_manager reopen_max_attempts attempt (lost_later ∷ connections) =
    let (attempt', delay) = backoff_or_giveup reopen_max_attempts 0 in
    sleep_or_stop delay (run_modem_manager reopen_max_attempts attempt' connections)
run_modem_manager reopen_max_attempts attempt (channel_closed ∷ connections) = shut_down ∷ []

abbrev pub repeat : ℕ → Connection → List Connection → List Connection
repeat zero c rest = rest
repeat (suc n) c rest = c ∷ repeat n c rest

failures_lem :
    (m left attempt : ℕ) (rest : List Connection)
    → m < u32_max
    → attempt + left ≡ m
    → run_modem_manager m attempt (repeat (suc left) not_opened rest)
      ≡ map slept (schedule_from (attempt + 1) left) ++ gave_up ∷ []
unfolding run_modem_manager backoff_or_giveup schedule_from
failures_lem m zero attempt rest h e = ground (arith, h, e)
failures_lem m (suc left) attempt rest h e =
    let next : saturating_add_u32 attempt 1 ≡ attempt + 1 = omega (arith, h, e) in
    let more : ltb m (attempt + 1) ≡ false = ground (arith, e) in
    rw (next, more)
      (ap (λ r. slept (reconnect_backoff_secs (attempt + 1)) ∷ r)
        (failures_lem m left (attempt + 1) rest h (omega (arith, e))))

-- A port that never opens is tried again after each delay of the schedule, as many times as are
-- configured (fewer than the largest number of 32 bits), and the manager gives up at the failure
-- after that.
pub run_modem_manager_gives_up :
    (m : ℕ) (rest : List Connection)
    → m < u32_max
    → run_modem_manager m 0 (repeat (suc m) not_opened rest)
      ≡ map slept (reconnect_backoff_schedule m) ++ gave_up ∷ []
unfolding reconnect_backoff_schedule
run_modem_manager_gives_up m rest h = failures_lem m m 0 rest h (omega arith)

abbrev pub repeat_sleep : ℕ → List Happening → List Happening
repeat_sleep zero rest = rest
repeat_sleep (suc n) rest = slept 1 ∷ repeat_sleep n rest

-- A port that opens and is lost, however often, is opened again after a second each time, if the
-- configuration allows an attempt at all.
pub run_modem_manager_reopens :
    (m attempt n : ℕ)
    → 1 ≤ m
    → run_modem_manager m attempt (repeat n lost_later []) ≡ repeat_sleep n []
unfolding run_modem_manager backoff_or_giveup reconnect_backoff_secs
run_modem_manager_reopens m attempt zero h = refl
run_modem_manager_reopens m attempt (suc n) h =
    let more : ltb m 1 ≡ false = ground (arith, h) in
    rw more (ap (λ r. slept 1 ∷ r) (run_modem_manager_reopens m 1 n h))
