-- ===== src/Shared/Wants.antt =====
-- What a task wants of the network, and the steps from a state in which the lock is free.
use esp_rf_ook.Prelude.{
  ℕ, ◌≡◌, ap, refl, ◌⊎◌, inl, inr, Bool, true, false, Option, none, some, List, [], ◌∷◌, Outcome,
  ok, err, panic,
}
use esp_rf_ook.Sensor.{SensorData, PackedStruct}
use esp_rf_ook.Network.{Client, Network}
use esp_rf_ook.Network.Program.{Program, ends, call_all}
use esp_rf_ook.Ntpc.{NtpcError}
use esp_rf_ook.Mqtt.{MqttError}
use esp_rf_ook.Publisher.{Jiff, post}
use esp_rf_ook.Channel.{Channel}
use esp_rf_ook.System.{Event, delivered}
use esp_rf_ook.Device.{Device, delivery_with, is_ok}
use esp_rf_ook.Shared.{
  Mutex, IsMutex, Shared, is_due, is_silent, locks_time, locks_message, Steps, next,
}
use esp_rf_ook.Shared.Ends.{sharing, Run, loop_calls, turn_ends, loop_ends}

module _ {Addr World C L : Type 0} where
  -- The loop is where the `get_time` of this check returns no time, and `expect` panics.
  abbrev pub Fails : ℕ → Shared Addr World C L → Type 0
  Fails checked f =
      (r : Outcome NtpcError ℕ) × (addr : Option Addr) × (f.loop ≡ some (checked, ends r addr))
      × (is_ok r ≡ false)

  -- The publisher has a message in hand, of a time that jiff takes and at most 300 seconds after the
  -- last success, or the loop is before an hourly check that is due.
  pub data Wants (jiff : Jiff) (f : Shared Addr World C L) : Type 0 where
    message :
        (m : SensorData) (timestamp : ℕ)
        → f.device.in_hand ≡ some (m, timestamp)
        → is_silent timestamp f.device.last_publish ≡ false
        → jiff.is_timestamp timestamp ≡ true
        → Wants jiff f
    hour :
        (checked : ℕ)
        → f.loop ≡ none
        → f.device.asked ≡ none
        → is_due checked f.device.station ≡ true
        → Wants jiff f

module _ {Addr World C L : Type 0} (n : Network Addr World) (q : Channel (SensorData × ℕ) C)
    (x : Mutex L) (law : IsMutex x) (is_timestamp : ℕ → Bool) (p : PackedStruct) (jiff : Jiff)
    (mqtt_server : List ℕ) where
  -- Steps by which the message is delivered, or the time is got.
  abbrev pub Served : (f : Shared Addr World C L) → Wants jiff f → Type 0
  Served f (message m timestamp _ _ _) =
      (es : List Event) × (f' : Shared Addr World C L) × (uptime : ℕ) × (result : Outcome MqttError
        (Unit {0}))
      × (let d = delivery_with m timestamp uptime result in
          Steps n q x is_timestamp p jiff mqtt_server f (delivered d (post jiff d) ∷ es) f')
  Served f (hour checked _ _ _) =
      (es : List Event) × (f' : Shared Addr World C L) × (time : ℕ) × Steps n q x is_timestamp p
        jiff mqtt_server f es f'
      × (f'.device.asked ≡ some (checked, time))

  -- By steps with these events the check comes to that.
  abbrev pub FailsBy : Shared Addr World C L → List Event → ℕ → Type 0
  FailsBy f es checked =
      (f' : Shared Addr World C L) × Steps n q x is_timestamp p jiff mqtt_server f es f'
      × Fails checked f'

  -- The loop is at a `get_time`, with the lock, that comes to no time before anything else happens.
  abbrev pub LoopFails : Shared Addr World C L → Type 0
  LoopFails f =
      (checked : ℕ) × (rest : Program Addr NtpcError ℕ) × (f.loop ≡ some (checked, rest))
      × FailsBy f [] checked

  -- What can stand in the way of what the task wants: no time for this loop, or for this very check.
  abbrev pub Failed : (f : Shared Addr World C L) → Wants jiff f → Type 0
  Failed f (message m timestamp _ _ _) = LoopFails f
  Failed f (hour checked _ _ _) = (es : List Event) × FailsBy f es checked

  module _ {t : Shared Addr World C L} {es : List Event} where
    -- Or the loop fails.
    pub loop_ends_or_fails :
        (rest : Program Addr NtpcError ℕ) (d : Device Addr World C) (l : L)
        (turn : Option (ℕ × Program Addr MqttError (Unit {0}))) (checked : ℕ)
        → Run n q x is_timestamp p jiff mqtt_server t es (sharing d l (some (checked, rest)) turn)
        → ((time : ℕ) × (c : Client Addr World) × Run n q x is_timestamp p jiff mqtt_server t es (
              sharing
                (record d {
                  asked = some (checked, time);
                  ntpc = c.addr;
                  world = c.world;
                  calls = c.calls;
                })
                (x.unlock l)
                none
                turn))
          ⊎ FailsBy t es checked
    loop_ends_or_fails rest d l turn checked run = by_result _ refl
      where
        by_result :
            (r : Outcome NtpcError ℕ × Client Addr World)
            → call_all n rest d.world d.calls ≡ r
            → ((time : ℕ) × (c : Client Addr World) × Run n q x is_timestamp p jiff mqtt_server t es
                  (sharing
                    (record d {
                      asked = some (checked, time);
                      ntpc = c.addr;
                      world = c.world;
                      calls = c.calls;
                    })
                    (x.unlock l)
                    none
                    turn))
              ⊎ FailsBy t es checked
        by_result (ok time, c) e = inl (
          time,
          c,
          loop_ends n q x is_timestamp p jiff mqtt_server rest d l turn checked time c e run,
        )
        by_result (err error, c) e = inr (
          _,
          loop_calls n q x is_timestamp p jiff mqtt_server rest d l turn checked run,
          (_, _, refl, ap (λ r. is_ok r.0) e),
        )
        by_result (panic, c) e = inr (
          _,
          loop_calls n q x is_timestamp p jiff mqtt_server rest d l turn checked run,
          (_, _, refl, ap (λ r. is_ok r.0) e),
        )

    -- From a state in which the lock is free.
    pub turn_starts :
        (f : Shared Addr World C L) (m : SensorData) (timestamp : ℕ)
        → Run n q x is_timestamp p jiff mqtt_server t es f
        → f.turn ≡ none
        → law.locked f.mutex ≡ false
        → f.device.in_hand ≡ some (m, timestamp)
        → is_silent timestamp f.device.last_publish ≡ false
        → jiff.is_timestamp timestamp ≡ true
        → (f' : Shared Addr World C L) × (result : Outcome MqttError (Unit {0})) × (let d =
              delivery_with m timestamp 0 result in
            Run n q x is_timestamp p jiff mqtt_server t (delivered d (post jiff d) ∷ es) f')
    turn_starts f m timestamp run no_turn unlocked i loud timed =
        let (l, locks, _) = law.lock_unlocked f.mutex unlocked in
        let run' =
          turn_ends n q x is_timestamp p jiff mqtt_server _ f.device l f.loop m timestamp 0 _ _ i
            refl (next _ run (locks_message f m timestamp 0 l no_turn i loud timed locks)) in
        (_, _, run')

    pub loop_starts :
        (f : Shared Addr World C L) (checked : ℕ)
        → Run n q x is_timestamp p jiff mqtt_server t es f
        → f.loop ≡ none
        → law.locked f.mutex ≡ false
        → f.device.asked ≡ none
        → is_due checked f.device.station ≡ true
        → ((f' : Shared Addr World C L) × (time : ℕ) × Run n q x is_timestamp p jiff mqtt_server t
              es f'
            × (f'.device.asked ≡ some (checked, time)))
          ⊎ FailsBy t es checked
    loop_starts f checked run no_loop unlocked idle due =
        let (l, locks, _) = law.lock_unlocked f.mutex unlocked in
        elim (loop_ends_or_fails _ f.device l f.turn checked
          (next _ run (locks_time f checked l no_loop idle due locks))) [
            | inl (time, _, run') ↦ inl (_, time, run', refl)
            | inr failed ↦ inr failed
          ]
