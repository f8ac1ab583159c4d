-- ===== src/Station/Spacing.antt =====
-- The pause between two messages, on a clock that does not step back.
use mathlib.Core.Path.{subst}
use esp_rf_ook.Prelude.{
  ℕ, ◌+◌, ◌^◌, ◌≤◌, ◌<◌, ◌≡◌, sym, Bool, some, List, [], ◌∷◌, ◌++◌, arith, inl, inr,
}
use esp_rf_ook.Sensor.{SensorData, PackedStruct}
use esp_rf_ook.Station.{Station, Action, Round, start, publish_after, run}
use esp_rf_ook.Station.Effect.{sends, accepted}
use esp_rf_ook.Station.Runs.{Published, run-start-Published}

-- The clock of the rounds does not step back, from the time `t` on, and fits its 64 bits.
abbrev pub Ascending : ℕ → List Round → Type 0
Ascending t [] = Unit
Ascending t (r ∷ rs) = (t ≤ r.now) × (r.now < 2 ^ 64) × Ascending r.now rs

-- Each message is more than five seconds younger than the one before.
abbrev pub Spaced : ℕ → List (SensorData × ℕ) → Type 0
Spaced last [] = Unit
Spaced last ((m, t) ∷ sent) = (last + publish_after < t) × Spaced t sent

Published-Spaced :
    (p : PackedStruct) (rs : List Round) (last t : ℕ) (history : List SensorData)
    (sent : List (SensorData × ℕ))
    → last ≤ t
    → Ascending t rs
    → Published p last history rs sent
    → Spaced last sent
Published-Spaced p [] last t history sent h up e = subst (Spaced last) (sym e) tt
Published-Spaced p (r ∷ rs) last t history sent h (now, fits, up) (inl rest) =
    Published-Spaced p rs last r.now (accepted p r ++ history) sent (omega arith) up rest
Published-Spaced p (r ∷ rs) last t history sent h (now, fits, up)
      (inr (m, later, _, e, confirmed, rest)) =
    subst (Spaced last) (sym e) (
      omega (arith, confirmed.spaced),
      Published-Spaced p rs r.now r.now (m ∷ history) later (omega arith) up rest,
    )

-- In a run of the loop from its start, without a panic and on a clock that does not step back, any
-- message is more than five seconds younger than the one before, and the first than the start.
pub sends-run-Spaced :
    (is_timestamp : ℕ → Bool) (p : PackedStruct) (rs : List Round) (last_time_sync last_publish : ℕ)
    {s' : Station} {acts : List Action}
    → Ascending last_publish rs
    → run is_timestamp p (start last_time_sync last_publish) rs ≡ some (s', acts)
    → Spaced last_publish (sends acts)
sends-run-Spaced is_timestamp p rs last_time_sync last_publish {s'} {acts} up h =
    Published-Spaced p rs last_publish last_publish [] (sends acts) (omega arith) up
      (run-start-Published is_timestamp p rs last_time_sync last_publish h)
