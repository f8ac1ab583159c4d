-- ===== src/Life/Handled.antt =====
-- No task waits for good: what it is about to do is done, or the device panics, and can start again.
use esp_rf_ook.Prelude.{
  ℕ, ◌≡◌, ◌⊎◌, inl, inr, Bool, true, false, Bool-cases, none, some, Option-cases, List, [], ◌∷◌,
  ◌++◌, Outcome,
}
use esp_rf_ook.Sensor.{SensorData, PackedStruct}
use esp_rf_ook.Network.{Network, Call}
use esp_rf_ook.Mqtt.{MqttError}
use esp_rf_ook.Publisher.{Jiff, post}
use esp_rf_ook.Channel.{Channel}
use esp_rf_ook.System.{Event, delivered}
use esp_rf_ook.Device.{delivery_with}
use esp_rf_ook.Shared.{Mutex, IsMutex, Shared, is_due, is_silent}
use esp_rf_ook.Shared.Atomic.{Atomic-Publishing}
use esp_rf_ook.Shared.Runs.{Steps-Atomic}
use esp_rf_ook.Shared.Wants.{Wants, LoopFails, FailsBy}
use esp_rf_ook.Shared.Served.{Steps-Served}
use esp_rf_ook.Life.{running, halted, no_time, silence, no_date_time, panics, Lives, next}
use esp_rf_ook.Life.Runs.{Lives-IsRun, runs_all}

-- The publisher has a message in hand, or the loop is before an hourly check that is due.
pub data Waits {Addr World C L : Type 0} (f : Shared Addr World C L) : Type 0 where
  message : (m : SensorData) (timestamp : ℕ) → f.device.in_hand ≡ some (m, timestamp) → Waits f
  hour :
      (checked : ℕ)
      → f.loop ≡ none
      → f.device.asked ≡ none
      → is_due checked f.device.station ≡ true
      → Waits f

module _ {Addr World C L : Type 0} (n : Network Addr World) (q : Channel (SensorData × ℕ) C)
    (x : Mutex L) (law : IsMutex x) (is_timestamp : ℕ → Bool) (p : PackedStruct) (jiff : Jiff)
    (mqtt_server : List ℕ) (world : World) (first : List (Call Addr)) (before : List Event)
    (earlier : List (List Event)) (past : List (List (Call Addr))) where
  -- The same start goes on until the message is delivered, or the time is there.
  abbrev pub Handled : (f : Shared Addr World C L) → Waits f → Type 0
  Handled f (message m timestamp i) =
      (es : List Event) × (f' : Shared Addr World C L) × (uptime : ℕ) × (result : Outcome MqttError
        (Unit {0}))
      × (let d = delivery_with m timestamp uptime result in
          Lives n q x is_timestamp p jiff mqtt_server world
            ((delivered d (post jiff d) ∷ es ++ before) ∷ earlier) past (running f' first))
  Handled f (hour checked off idle due) =
      (es : List Event) × (f' : Shared Addr World C L) × (time : ℕ) × Lives n q x is_timestamp p
        jiff mqtt_server world ((es ++ before) ∷ earlier) past (running f' first)
      × (f'.device.asked ≡ some (checked, time))

  -- The start ends in a panic, after these events.
  abbrev pub Halts : List Event → Type 0
  Halts es =
      (w : World) × (made : List (Call Addr)) × Lives n q x is_timestamp p jiff mqtt_server world
        ((es ++ before) ∷ earlier) past (halted w made)

  -- It does for the sake of what waits: the message itself is too late, or of no time that jiff takes, and
  -- its turn has not begun; the `get_time` that the loop is at with the lock, or that of this very check,
  -- comes to no time.
  abbrev pub Dies : (f : Shared Addr World C L) → Waits f → Type 0
  Dies f (message m timestamp i) =
      (((f.turn ≡ none)
          × ((is_silent timestamp f.device.last_publish ≡ true)
              ⊎ (jiff.is_timestamp timestamp ≡ false)))
        ⊎ LoopFails n q x law is_timestamp p jiff mqtt_server f)
      × Halts []
  Dies f (hour checked off idle due) =
      (es : List Event) × FailsBy n q x law is_timestamp p jiff mqtt_server f es checked × Halts es

  module _ (f : Shared Addr World C L)
      (lives : Lives n q x is_timestamp p jiff mqtt_server world
        (before ∷ earlier)
        past
        (running f first)) where
    fails :
        (es : List Event) (checked : ℕ)
        → FailsBy n q x law is_timestamp p jiff mqtt_server f es checked
        → Halts es
    fails es checked (f', run, (r, addr, h, bad)) = (
      f'.device.world,
      f'.device.calls ++ first,
      next [] (runs_all n q x is_timestamp p jiff mqtt_server world first lives run)
          (panics f' first (no_time checked r addr h bad)),
    )

    timely :
        (m : SensorData) (timestamp : ℕ) (i : f.device.in_hand ≡ some (m, timestamp))
        → is_silent timestamp f.device.last_publish ≡ false
        → jiff.is_timestamp timestamp ≡ true
        → Handled f (message m timestamp i) ⊎ Dies f (message m timestamp i)
    timely m timestamp i loud timed =
        let (a, b, c, d, e, steps) = Lives-IsRun n q x is_timestamp p jiff mqtt_server lives in
        elim (Steps-Served n q x law is_timestamp p jiff mqtt_server a b c d e f steps
          (Wants.message m timestamp i loud timed)) [
            | inl (es, f', uptime, result, run) ↦ inl (
              es,
              f',
              uptime,
              result,
              runs_all n q x is_timestamp p jiff mqtt_server world first lives run,
            )
            | inr (checked, rest, h, failed) ↦
                inr (inr (checked, rest, h, failed), fails [] checked failed)
          ]

    -- The turn has not taken the lock.
    waiting_turn :
        (m : SensorData) (timestamp : ℕ) (i : f.device.in_hand ≡ some (m, timestamp))
        → f.turn ≡ none
        → Handled f (message m timestamp i) ⊎ Dies f (message m timestamp i)
    waiting_turn m timestamp i off = elim (Bool-cases (is_silent timestamp f.device.last_publish)) [
      | inl quiet ↦ inr (
        inl (off, inl quiet),
        (_, _, next [] lives (panics f first (silence m timestamp off i quiet))),
      )
      | inr loud ↦ elim (Bool-cases (jiff.is_timestamp timestamp)) [
        | inl timed ↦ timely m timestamp i loud timed
        | inr untimed ↦ inr (
          inl (off, inr untimed),
          (_, _, next [] lives (panics f first (no_date_time m timestamp off i untimed))),
        )
      ]
    ]

    -- In every state that the device reaches, through any starts: a message that the publisher has in hand
    -- is delivered, or an hourly check that is due gets its time, by further steps of this same start.
    -- Else the start can end in a panic for a reason of its own. For a message: its time is more than 300
    -- seconds after the last success, or none that jiff takes, and its turn has not begun; or the
    -- `get_time` that the loop is at, with the lock, comes to no time before any other event. For a
    -- check: its own `get_time` comes to no time. The mutex is to keep its laws.
    pub Lives-Handled : (w : Waits f) → Handled f w ⊎ Dies f w
    Lives-Handled (message m timestamp i) = elim (Option-cases f.turn) [
      | inl off ↦ waiting_turn m timestamp i off
      | inr ((uptime, rest), h) ↦
          let (a, b, c, d, e, steps) = Lives-IsRun n q x is_timestamp p jiff mqtt_server lives in
          let k =
            Atomic-Publishing n q x law is_timestamp p jiff mqtt_server _ i h
              (Steps-Atomic n q x law is_timestamp p jiff mqtt_server a b c d e steps) in
          timely m timestamp i k.heard k.timed
    ]
    Lives-Handled (hour checked off idle due) =
        let (a, b, c, d, e, steps) = Lives-IsRun n q x is_timestamp p jiff mqtt_server lives in
        elim (Steps-Served n q x law is_timestamp p jiff mqtt_server a b c d e f steps
          (Wants.hour checked off idle due)) [
            | inl (es, f', time, run, e') ↦ inl (
              es,
              f',
              time,
              runs_all n q x is_timestamp p jiff mqtt_server world first lives run,
              e',
            )
            | inr (es, failed) ↦ inr (es, failed, fails es checked failed)
          ]
