-- ===== src/Shared/Arrives.antt =====
-- On a network that accepts every call, a message in hand goes out, whatever the loop is doing.
use mathlib.Core.Path.{subst}
use esp_rf_ook.Prelude.{
  ℕ, ◌≡◌, ap, ◌∙◌, ◌⊎◌, inl, inr, Bool, true, false, Option, none, some, List, [], ◌∷◌, ok,
}
use esp_rf_ook.Sensor.{SensorData, PackedStruct}
use esp_rf_ook.Network.{Network, Call}
use esp_rf_ook.Network.Program.{Program, call_all}
use esp_rf_ook.Ntpc.{NtpcError}
use esp_rf_ook.Mqtt.{MqttError}
use esp_rf_ook.Publisher.{Jiff, post}
use esp_rf_ook.Channel.{Channel}
use esp_rf_ook.System.{Event, delivered}
use esp_rf_ook.Device.{Device, delivery_with, publish_message}
use esp_rf_ook.Device.Logged.{messages}
use esp_rf_ook.Device.Messages.{content}
use esp_rf_ook.Device.Accepting.{Accepts, message_goes_out}
use esp_rf_ook.Shared.{
  Mutex, IsMutex, Shared, is_silent, shared_started, locks_message, Steps, here, next,
}
use esp_rf_ook.Shared.Atomic.{Atomic, free, asking, publishing, Atomic-Publishing, message_lem}
use esp_rf_ook.Shared.Runs.{Steps-Atomic}
use esp_rf_ook.Shared.Ends.{sharing, turn_ends}
use esp_rf_ook.Shared.Wants.{LoopFails, loop_ends_or_fails}

module _ {Addr World C L : Type 0} (n : Network Addr World) (q : Channel (SensorData × ℕ) C)
    (x : Mutex L) (law : IsMutex x) (is_timestamp : ℕ → Bool) (p : PackedStruct) (jiff : Jiff)
    (mqtt_server : List ℕ) (good : Accepts n) where
  -- Steps by which the message is delivered with success, as the last one that was sent.
  abbrev pub Sent : Shared Addr World C L → SensorData → ℕ → Type 0
  Sent f m timestamp =
      (es : List Event) × (f' : Shared Addr World C L) × (uptime : ℕ) × (before : List
        (List ℕ × List ℕ))
      × (let d = delivery_with m timestamp uptime (ok tt) in
          Steps n q x is_timestamp p jiff mqtt_server f (delivered d (post jiff d) ∷ es) f'
          × (messages f'.device.calls ≡ content (post jiff d) ∷ before))

  module _ {t : Shared Addr World C L} {es : List Event} where
    turn_Sent :
        (rest : Program Addr MqttError (Unit {0})) (d : Device Addr World C) (l : L)
        (loop : Option (ℕ × Program Addr NtpcError ℕ)) (m : SensorData) (timestamp uptime : ℕ)
        (world : World) (calls : List (Call Addr))
        → d.in_hand ≡ some (m, timestamp)
        → call_all n rest d.world d.calls
          ≡ publish_message n jiff mqtt_server
              (record d { world = world; calls = calls })
              m
              timestamp
              uptime
        → Steps n q x is_timestamp p jiff mqtt_server t es (sharing d l loop (some (uptime, rest)))
        → Sent t m timestamp
    turn_Sent rest d l loop m timestamp uptime world calls i same run =
        let d₀ = record d { world = world; calls = calls } in
        let (succeeds, goes_out) = message_goes_out n good jiff mqtt_server d₀ m timestamp uptime in
        let c = (publish_message n jiff mqtt_server d₀ m timestamp uptime).1 in
        (
          es,
          _,
          uptime,
          messages calls,
          (
            turn_ends n q x is_timestamp p jiff mqtt_server rest d l loop m timestamp uptime (ok tt)
                c i (same ∙ ap (λ r. (r, c)) succeeds) run,
            goes_out,
          ),
        )

    free_Sent :
        (f : Shared Addr World C L) (m : SensorData) (timestamp : ℕ)
        → f.turn ≡ none
        → law.locked f.mutex ≡ false
        → f.device.in_hand ≡ some (m, timestamp)
        → is_silent timestamp f.device.last_publish ≡ false
        → jiff.is_timestamp timestamp ≡ true
        → Steps n q x is_timestamp p jiff mqtt_server t es f
        → Sent t m timestamp
    free_Sent f m timestamp no_turn unlocked i loud timed run =
        let (l, locks, _) = law.lock_unlocked f.mutex unlocked in
        turn_Sent _ f.device l f.loop m timestamp 0 f.device.world f.device.calls i
          (message_lem n jiff mqtt_server f.device m timestamp 0)
          (next _ run (locks_message f m timestamp 0 l no_turn i loud timed locks))

  Atomic-Sent :
      {s : Device Addr World C} {es : List Event} (f : Shared Addr World C L) (m : SensorData)
      (timestamp : ℕ)
      → Atomic n q x law is_timestamp p jiff mqtt_server s es f
      → f.device.in_hand ≡ some (m, timestamp)
      → is_silent timestamp f.device.last_publish ≡ false
      → jiff.is_timestamp timestamp ≡ true
      → Sent f m timestamp ⊎ LoopFails n q x law is_timestamp p jiff mqtt_server f
  Atomic-Sent f m timestamp (free _ no_turn unlocked _) i loud timed =
      inl (free_Sent f m timestamp no_turn unlocked i loud timed here)
  Atomic-Sent f m timestamp (publishing m' timestamp' uptime rest i' h a') i loud timed =
      let a =
        Atomic-Publishing n q x law is_timestamp p jiff mqtt_server _ i h
          (publishing m' timestamp' uptime rest i' h a') in
      inl (
        turn_Sent rest f.device f.mutex f.loop m timestamp uptime a.world a.calls i a.same (
          subst
            (λ turn. Steps n q x is_timestamp p jiff mqtt_server f [] (record f { turn = turn })) h
            here))
  Atomic-Sent f m timestamp (asking checked rest h a) i loud timed =
      elim (loop_ends_or_fails n q x law is_timestamp p jiff mqtt_server rest f.device f.mutex
        f.turn checked
        (subst (λ loop. Steps n q x is_timestamp p jiff mqtt_server f [] (record f { loop = loop }))
          h here)) [
            | inl (_, _, run) ↦
                inl (free_Sent _ m timestamp a.no_turn (law.locked-unlock f.mutex) i loud timed run)
            | inr failed ↦ inr (checked, rest, h, failed)
          ]

  -- On a network that accepts every call and knows every name, and from every state that the two tasks
  -- can reach by single calls: a message in hand, of a time that jiff takes and at most 300 seconds
  -- after the last success, has steps by which it is delivered with success, its topic and text being
  -- the last that were sent to the broker, also where the loop holds the lock; or the loop is at a call of
  -- `get_time` that comes, by its own single calls from there, to no time, where `main` panics.
  pub Steps-Sent :
      (last_time_sync last_publish publisher_now : ℕ) (ntpc : Option Addr) (world : World)
      {es : List Event} (f : Shared Addr World C L) (m : SensorData) (timestamp : ℕ)
      → Steps n q x is_timestamp p jiff mqtt_server
          (shared_started q x last_time_sync last_publish publisher_now ntpc world)
          es
          f
      → f.device.in_hand ≡ some (m, timestamp)
      → is_silent timestamp f.device.last_publish ≡ false
      → jiff.is_timestamp timestamp ≡ true
      → Sent f m timestamp ⊎ LoopFails n q x law is_timestamp p jiff mqtt_server f
  Steps-Sent last_time_sync last_publish publisher_now ntpc world f m timestamp steps =
      Atomic-Sent f m timestamp (
        Steps-Atomic n q x law is_timestamp p jiff mqtt_server last_time_sync last_publish
          publisher_now ntpc world steps)
