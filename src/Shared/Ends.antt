-- ===== src/Shared/Ends.antt =====
-- Once a call of `publish` or `get_time` has the lock, it comes to its end.
use mathlib.Core.Path.{subst}
use esp_rf_ook.Prelude.{
  ℕ, if◌then◌else◌, ◌≡◌, refl, Bool, Option, none, some, List, ◌∷◌, Outcome, ok,
}
use esp_rf_ook.Sensor.{SensorData, PackedStruct}
use esp_rf_ook.Network.{Client, Network}
use esp_rf_ook.Network.Program.{Program, ends, queries, attempts, requests, call_next, call_all}
use esp_rf_ook.Ntpc.{NtpcError}
use esp_rf_ook.Mqtt.{MqttError}
use esp_rf_ook.Publisher.{Jiff, post}
use esp_rf_ook.Channel.{Channel}
use esp_rf_ook.System.{Event, delivered}
use esp_rf_ook.Device.{Device, delivery_with, is_ok}
use esp_rf_ook.Shared.{
  Mutex, Shared, calls_time, ends_time, calls_message, ends_message, Steps, next,
}

module _ {Addr World C L : Type 0} where
  abbrev pub sharing :
      Device Addr World C
      → L
      → Option (ℕ × Program Addr NtpcError ℕ)
      → Option (ℕ × Program Addr MqttError (Unit {0}))
      → Shared Addr World C L
  sharing d l loop turn = record { device = d; mutex = l; loop = loop; turn = turn }

  -- All calls are made.
  abbrev pub turn_at_end :
      Device Addr World C
      → L
      → Option (ℕ × Program Addr NtpcError ℕ)
      → ℕ
      → Outcome MqttError (Unit {0}) × Client Addr World
      → Shared Addr World C L
  turn_at_end d l loop uptime (r, c) =
      sharing (record d { world = c.world; calls = c.calls }) l loop (some (uptime, ends r c.addr))

  abbrev pub loop_at_end :
      Device Addr World C
      → L
      → Option (ℕ × Program Addr MqttError (Unit {0}))
      → ℕ
      → Outcome NtpcError ℕ × Client Addr World
      → Shared Addr World C L
  loop_at_end d l turn checked (r, c) =
      sharing (record d { world = c.world; calls = c.calls }) l (some (checked, ends r c.addr)) turn

module _ {Addr World C L : Type 0} (n : Network Addr World) (q : Channel (SensorData × ℕ) C)
    (x : Mutex L) (is_timestamp : ℕ → Bool) (p : PackedStruct) (jiff : Jiff)
    (mqtt_server : List ℕ) where
  abbrev pub Run : Shared Addr World C L → List Event → Shared Addr World C L → Type 0
  Run = Steps n q x is_timestamp p jiff mqtt_server

  module _ {t : Shared Addr World C L} {es : List Event} where
    -- The calls that are left can be made.
    pub turn_calls :
        (rest : Program Addr MqttError (Unit {0})) (d : Device Addr World C) (l : L)
        (loop : Option (ℕ × Program Addr NtpcError ℕ)) (uptime : ℕ)
        → Run t es (sharing d l loop (some (uptime, rest)))
        → Run t es (turn_at_end d l loop uptime (call_all n rest d.world d.calls))
    unfolding call_next call_all
    turn_calls (ends r addr) d l loop uptime run = run
    turn_calls (queries name go) d l loop uptime run =
        turn_calls (go (n.query name d.world).0) (record d { world = _; calls = _ }) l loop uptime
          (next _ run (calls_message _ uptime (queries name go) _ _ _ refl refl))
    turn_calls (attempts call go) d l loop uptime run =
        turn_calls (go (n.attempt call d.world).0) (record d { world = _; calls = _ }) l loop uptime
          (next _ run (calls_message _ uptime (attempts call go) _ _ _ refl refl))
    turn_calls (requests addr port go) d l loop uptime run =
        turn_calls (go (n.request addr port d.world).0) (record d { world = _; calls = _ }) l loop
          uptime (next _ run (calls_message _ uptime (requests addr port go) _ _ _ refl refl))

    pub loop_calls :
        (rest : Program Addr NtpcError ℕ) (d : Device Addr World C) (l : L)
        (turn : Option (ℕ × Program Addr MqttError (Unit {0}))) (checked : ℕ)
        → Run t es (sharing d l (some (checked, rest)) turn)
        → Run t es (loop_at_end d l turn checked (call_all n rest d.world d.calls))
    unfolding call_next call_all
    loop_calls (ends r addr) d l turn checked run = run
    loop_calls (queries name go) d l turn checked run =
        loop_calls (go (n.query name d.world).0) (record d { world = _; calls = _ }) l turn checked
          (next _ run (calls_time _ checked (queries name go) _ _ _ refl refl))
    loop_calls (attempts call go) d l turn checked run =
        loop_calls (go (n.attempt call d.world).0) (record d { world = _; calls = _ }) l turn
          checked (next _ run (calls_time _ checked (attempts call go) _ _ _ refl refl))
    loop_calls (requests addr port go) d l turn checked run =
        loop_calls (go (n.request addr port d.world).0) (record d { world = _; calls = _ }) l turn
          checked (next _ run (calls_time _ checked (requests addr port go) _ _ _ refl refl))

    -- The end of the turn.
    pub turn_ends :
        (rest : Program Addr MqttError (Unit {0})) (d : Device Addr World C) (l : L)
        (loop : Option (ℕ × Program Addr NtpcError ℕ)) (m : SensorData) (timestamp uptime : ℕ)
        (result : Outcome MqttError (Unit {0})) (c : Client Addr World)
        → d.in_hand ≡ some (m, timestamp)
        → call_all n rest d.world d.calls ≡ (result, c)
        → Run t es (sharing d l loop (some (uptime, rest)))
        → Run t
            (delivered
                (delivery_with m timestamp uptime result)
                (post jiff (delivery_with m timestamp uptime result))
              ∷ es)
            (sharing
              (record d {
                in_hand = none;
                last_publish = if is_ok result then timestamp else d.last_publish;
                mqtt = c.addr;
                world = c.world;
                calls = c.calls;
              })
              (x.unlock l)
              loop
              none)
    turn_ends rest d l loop m timestamp uptime result c i e run =
        next _
          (subst (λ r. Run t es (turn_at_end d l loop uptime r)) e
            (turn_calls rest d l loop uptime run))
          (ends_message _ m timestamp uptime result c.addr i refl)

    -- The end of the call in the loop.
    pub loop_ends :
        (rest : Program Addr NtpcError ℕ) (d : Device Addr World C) (l : L)
        (turn : Option (ℕ × Program Addr MqttError (Unit {0}))) (checked time : ℕ)
        (c : Client Addr World)
        → call_all n rest d.world d.calls ≡ (ok time, c)
        → Run t es (sharing d l (some (checked, rest)) turn)
        → Run t es (
            sharing
              (record d {
                asked = some (checked, time);
                ntpc = c.addr;
                world = c.world;
                calls = c.calls;
              })
              (x.unlock l)
              none
              turn)
    loop_ends rest d l turn checked time c e run =
        next _
          (subst (λ r. Run t es (loop_at_end d l turn checked r)) e
            (loop_calls rest d l turn checked run))
          (ends_time _ checked time c.addr refl)
