-- ===== src/MqttBackoff/Logs.antt =====
-- How often an outage is logged, and how long the loop waits.
use bairelay.Base.{
  ℕ, zero, suc, ◌+◌, ◌-◌, ◌^◌, ◌≤◌, ◌<◌, ◌≡◌, ◌⊎◌, refl, sym, subst, ap, ◌∙◌, Bool, min, List, [],
  ◌∷◌, some, leb, if◌then◌else◌, All, Bool-cases, inl, inr, arith,
}
use bairelay.MqttBackoff.{MqttBackoff, relog_period, should_log, record_error_at, reset}

-- The delays and log decisions of the errors at these times.
unfoldable pub record_all : MqttBackoff → List ℕ → List (ℕ × Bool)
record_all b [] = []
record_all b (now ∷ times) = (record_error_at b now).1 ∷ record_all (record_error_at b now).0 times

-- The times of the errors that are logged.
abbrev pub logged : List ℕ → List (ℕ × Bool) → List ℕ
logged [] rs = []
logged (now ∷ times) [] = []
logged (now ∷ times) (r ∷ rs) = let rest = logged times rs in if r.1 then now ∷ rest else rest

-- Each time is at least a minute behind the one before.
abbrev pub Spaced : ℕ → List ℕ → Type 0
Spaced from [] = Unit {0}
Spaced from (now ∷ times) = (from + relog_period ≤ now) × Spaced now times

-- There is a log within the minute up to this time.
abbrev pub Covered : List ℕ → ℕ → Type 0
Covered [] now = ⊥
Covered (log ∷ logs) now = ((log ≤ now) × (now < log + relog_period)) ⊎ Covered logs now

-- The times are in order, none before the first.
abbrev pub Ascending : ℕ → List ℕ → Type 0
Ascending from [] = Unit {0}
Ascending from (now ∷ times) = (from ≤ now) × Ascending now times

abbrev pub InBounds : ℕ × Bool → Type 0
InBounds r = (1 ≤ r.0) × (r.0 ≤ 30)

power_table : (k : ℕ) → k ≤ 5 → (1 ≤ min (2 ^ k) 30) × (min (2 ^ k) 30 ≤ 30)
power_table zero h = (omega arith, omega arith)
power_table (suc zero) h = (omega arith, omega arith)
power_table (suc (suc zero)) h = (omega arith, omega arith)
power_table (suc (suc (suc zero))) h = (omega arith, omega arith)
power_table (suc (suc (suc (suc zero)))) h = (omega arith, omega arith)
power_table (suc (suc (suc (suc (suc zero))))) h = (omega arith, omega arith)
power_table (suc (suc (suc (suc (suc (suc k)))))) h = absurd (omega (arith, h))

small_power : (n : ℕ) → (1 ≤ min (2 ^ min n 5) 30) × (min (2 ^ min n 5) 30 ≤ 30)
small_power n = power_table (min n 5) (omega arith)

record_all-InBounds : (b : MqttBackoff) (times : List ℕ) → All InBounds (record_all b times)
unfolding record_all record_error_at
record_all-InBounds b [] = tt
record_all-InBounds b (now ∷ times) =
    (small_power b.consecutive, record_all-InBounds (record_error_at b now).0 times)

record_error_at_lem :
    (b : MqttBackoff) (now : ℕ)
    → ((record_error_at b now).1.1 ≡ should_log b now)
      × ((record_error_at b now).0.last_logged_at
          ≡ (if should_log b now then some now else b.last_logged_at))
unfolding record_error_at
record_error_at_lem b now = (refl, refl)

should_log_lem :
    (b : MqttBackoff) (t now : ℕ)
    → b.last_logged_at ≡ some t
    → should_log b now ≡ leb relog_period (now - t)
unfolding should_log
should_log_lem b t now e = rw (e, should_log) refl

All-Covered :
    (log : ℕ) (logs times : List ℕ) → All (Covered logs) times → All (Covered (log ∷ logs)) times
All-Covered log logs [] h = tt
All-Covered log logs (now ∷ times) (h, hs) = (inr h, All-Covered log logs times hs)

record_all-logged :
    (b : MqttBackoff) (t from : ℕ) (times : List ℕ)
    → b.last_logged_at ≡ some t
    → t ≤ from
    → Ascending from times
    → let ls = logged times (record_all b times) in Spaced t ls × All (Covered (t ∷ ls)) times
unfolding record_all
record_all-logged b t from [] e h a = (tt, tt)
record_all-logged b t from (now ∷ times) e h (later, a) =
    let next = (record_error_at b now).0 in
    let (flag, last) = record_error_at_lem b now in
    let is = should_log_lem b t now e in
    elim (Bool-cases (leb relog_period (now - t))) [
      | inl due ↦
          let (spaced, covered) =
            record_all-logged next now now times
              (last ∙ ap (λ x. if x then some now else b.last_logged_at) (is ∙ due)) (omega arith)
              a in
          let ls = logged times (record_all next times) in
          let split : logged (now ∷ times) (record_all b (now ∷ times)) ≡ now ∷ ls =
            ap (λ x. if x then now ∷ ls else ls) (flag ∙ is ∙ due) in
          subst (λ ks. Spaced t ks × All (Covered (t ∷ ks)) (now ∷ times)) (sym split)
            (
              (ground (arith, due, h, later), spaced),
              (inr (inl (omega arith, omega arith)), All-Covered t (now ∷ ls) times covered),
            )
      | inr soon ↦
          let (spaced, covered) =
            record_all-logged next t now times
              (last ∙ ap (λ x. if x then some now else b.last_logged_at) (is ∙ soon) ∙ e)
              (omega (arith, h, later)) a in
          let ls = logged times (record_all next times) in
          let split : logged (now ∷ times) (record_all b (now ∷ times)) ≡ ls =
            ap (λ x. if x then now ∷ ls else ls) (flag ∙ is ∙ soon) in
          subst (λ ks. Spaced t ks × All (Covered (t ∷ ks)) (now ∷ times)) (sym split)
            (spaced, (inl (omega (arith, h, later), ground (arith, soon, h, later)), covered))
    ]

-- From a reset on, of errors at any times in order the first is logged, each further log comes a
-- minute at least behind the one before, every error has a log at its time or less than a minute
-- before it, and every delay is between 1 and 30 seconds.
pub record_all-reset :
    (b : MqttBackoff) (first : ℕ) (times : List ℕ)
    → Ascending first times
    → let rs = record_all (reset b) (first ∷ times) in
      (ls : List ℕ) × (logged (first ∷ times) rs ≡ first ∷ ls)
      × Spaced first ls
      × All (Covered (first ∷ ls)) times
      × All InBounds rs
unfolding record_all record_error_at should_log reset
record_all-reset b first times a =
    let next : MqttBackoff = (record_error_at (reset b) first).0 in
    let (spaced, covered) = record_all-logged next first first times refl (omega arith) a in
    (
      logged times (record_all next times),
      refl,
      spaced,
      covered,
      record_all-InBounds (reset b) (first ∷ times),
    )
