-- ===== src/MqttBackoff.antt =====
-- The back-off of the MQTT loop: `MqttBackoff` of src/mqtt_loop.rs. An instant is a number of nanoseconds; a delay is in
-- seconds.
pub mod Logs
mod Examples
use bairelay.Base.{
  ℕ, suc, ◌+◌, ◌-◌, ◌^◌, Bool, true, false, min, Option, none, some, leb, if◌then◌else◌,
}

abbrev pub relog_period : ℕ
relog_period = 60000000000

-- The period is the same in every value.
pub record MqttBackoff : Type 0 where
  pub consecutive : ℕ
  pub last_logged_at : Option ℕ

unfoldable pub new_backoff : MqttBackoff
new_backoff = record { consecutive = 0; last_logged_at = none }

-- `is_none_or(|t| now.duration_since(t) >= relog_period)`; `duration_since` stops at zero.
unfoldable pub should_log : MqttBackoff → ℕ → Bool
should_log b now = elim b.last_logged_at [ none ↦ true | some t ↦ leb relog_period (now - t) ]

-- The state after the error, the delay and whether to log.
unfoldable pub record_error_at : MqttBackoff → ℕ → MqttBackoff × (ℕ × Bool)
unfolding should_log
record_error_at b now =
    let exp = min b.consecutive 5 in
    (
      record {
        consecutive = min (b.consecutive + 1) 4294967295;
        last_logged_at = if should_log b now then some now else b.last_logged_at;
      },
      (min (2 ^ exp) 30, should_log b now),
    )

unfoldable pub reset : MqttBackoff → MqttBackoff
reset b = record { consecutive = 0; last_logged_at = none }
