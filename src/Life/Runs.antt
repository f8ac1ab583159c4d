-- ===== src/Life/Runs.antt =====
-- A start of the device holds one run of its two tasks.
use mathlib.Core.Path.{subst}
use mathlib.Core.List.{append_assoc}
use esp_rf_ook.Prelude.{ℕ, ◌≡◌, refl, sym, Bool, Option, List, [], ◌∷◌, ◌++◌}
use esp_rf_ook.Sensor.{SensorData, PackedStruct}
use esp_rf_ook.Network.{Network, Call}
use esp_rf_ook.Publisher.{Jiff}
use esp_rf_ook.Channel.{Channel}
use esp_rf_ook.System.{Event}
use esp_rf_ook.Shared
use esp_rf_ook.Shared.{Mutex, Shared, shared_started}
use esp_rf_ook.Life.{
  Phase, off, asking, running, halted, Step, joins, fails_to_join, awaits, starts, fails_to_start,
  runs, panics, loses_wifi, Lives, powers, next, resets,
}

module _ {Addr World C L : Type 0} (n : Network Addr World) (q : Channel (SensorData × ℕ) C)
    (x : Mutex L) (is_timestamp : ℕ → Bool) (p : PackedStruct) (jiff : Jiff)
    (mqtt_server : List ℕ) where
  -- The events so far are those of a run of the two tasks.
  abbrev pub IsRun : List Event → Phase Addr World C L → Type 0
  IsRun es (off world) = es ≡ []
  IsRun es (asking a rest world made) = es ≡ []
  IsRun es (running f first) =
      (last_time_sync last_publish publisher_now : ℕ) × (ntpc : Option Addr) × (world : World)
      × Shared.Steps n q x is_timestamp p jiff mqtt_server
          (shared_started q x last_time_sync last_publish publisher_now ntpc world) es f
  IsRun es (halted world made) = Unit

  pub Step-IsRun :
      (es : List Event) {new : List Event} {s s' : Phase Addr World C L}
      → Step n q x is_timestamp p jiff mqtt_server s new s'
      → IsRun es s
      → IsRun (new ++ es) s'
  Step-IsRun es (joins a world joined) h = h
  Step-IsRun es (fails_to_join a world failed) h = tt
  Step-IsRun es (awaits a rest later world world' made made' e) h = h
  Step-IsRun es (starts a r addr world made station set) h =
      let s₀ = shared_started q x a.last_time_sync a.last_publish a.publisher_now addr world in
      (
        a.last_time_sync,
        a.last_publish,
        a.publisher_now,
        addr,
        world,
        subst (λ es. Shared.Steps n q x is_timestamp p jiff mqtt_server s₀ es s₀) (sym h)
            Shared.here,
      )
  Step-IsRun es (fails_to_start a r addr world made failed) h = tt
  Step-IsRun es (runs f f' new first step) (a, b, c, d, e, steps) =
      (a, b, c, d, e, Shared.next new steps step)
  Step-IsRun es (panics f first why) h = tt
  Step-IsRun es (loses_wifi r s up broken) h = tt

  abbrev Latest : List (List Event) → Phase Addr World C L → Type 0
  Latest [] s = ⊥
  Latest (es ∷ earlier) s = IsRun es s

  pub Lives-IsRun :
      {world : World} {hs : List (List Event)} {past : List (List (Call Addr))}
      {s : Phase Addr World C L}
      → Lives n q x is_timestamp p jiff mqtt_server world hs past s
      → Latest hs s
  Lives-IsRun powers = refl
  Lives-IsRun (next {es} new lives step) = Step-IsRun es step (Lives-IsRun lives)
  Lives-IsRun (resets lives) = refl

  -- What the two tasks can do, the device can.
  pub runs_all :
      (world : World) (first : List (Call Addr)) {f₀ f : Shared Addr World C L}
      {before es : List Event} {earlier : List (List Event)} {past : List (List (Call Addr))}
      → Lives n q x is_timestamp p jiff mqtt_server world (before ∷ earlier) past (running f₀ first)
      → Shared.Steps n q x is_timestamp p jiff mqtt_server f₀ es f
      → Lives n q x is_timestamp p jiff mqtt_server world
          ((es ++ before) ∷ earlier)
          past
          (running f first)
  runs_all world first lives Shared.here = lives
  runs_all world first {f = f} {before} {earlier = earlier} {past} lives
        (Shared.next {es} new steps step) =
      subst
        (λ l.
          Lives n q x is_timestamp p jiff mqtt_server world (l ∷ earlier) past (running f first))
        (sym (append_assoc new es before))
        (next new (runs_all world first lives steps) (runs _ _ new first step))
