-- ===== src/Health.antt =====
-- service/src/health.rs: the status of the modem, and what it says of the service.
use green_relay.Prelude.{ℕ, ◌≡◌, ◌↔◌, Bool, true, false, not, ◌||◌, Option, if◌then◌else◌, arith}
use green_relay.Text.{Text}

pub data SimStatus : Type 0 where
  ready not_ready unknown : SimStatus

abbrev pub is_ready : SimStatus → Bool
is_ready ready = true
is_ready _ = false

pub data ServiceHealth : Type 0 where
  healthy degraded unhealthy : ServiceHealth

pub record ModemStatusSnapshot : Type 0 where
  pub serial_connected : Bool
  pub sim_status : SimStatus
  pub registered : Bool
  pub responsive : Bool
  pub signal_percent : Option ℕ
  pub operator : Option Text

unfoldable pub derive_health : ModemStatusSnapshot → ServiceHealth
derive_health s =
    if not s.serial_connected || not s.responsive || not (is_ready s.sim_status)
    then unhealthy
    else if not s.registered
    then degraded
    else healthy

abbrev pub default_retry_after_secs : ℕ
default_retry_after_secs = 30

pub data DeliverabilityOutcome : Type 0 where
  deliverable : DeliverabilityOutcome
  rejected : ℕ → DeliverabilityOutcome

unfoldable pub deliverability_gate : ModemStatusSnapshot → ℕ → DeliverabilityOutcome
deliverability_gate s retry_after_secs =
    if not s.serial_connected || not (is_ready s.sim_status) || not s.registered
    then rejected retry_after_secs
    else deliverable

-- The service is healthy exactly if it is responsive and its gate lets messages through.
pub derive_health_iff :
    (s : ModemStatusSnapshot) (retry : ℕ)
    → (derive_health s ≡ healthy)
      ↔ ((deliverability_gate s retry ≡ deliverable) × (s.responsive ≡ true))
unfolding derive_health deliverability_gate
derive_health_iff s retry = ground arith

-- A service that is only degraded is connected, responsive and has a ready card, but its gate
-- rejects every message, with the given delay, for want of a registration.
pub derive_health-degraded :
    (s : ModemStatusSnapshot) (retry : ℕ)
    → derive_health s ≡ degraded
    → (s.serial_connected ≡ true)
      × (s.responsive ≡ true)
      × (s.sim_status ≡ ready)
      × (s.registered ≡ false)
      × (deliverability_gate s retry ≡ rejected retry)
unfolding derive_health deliverability_gate
derive_health-degraded s retry h = ground arith
