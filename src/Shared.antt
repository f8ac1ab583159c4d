-- ===== src/Shared.antt =====
-- SHARED_STACK of src/bin/main.rs: the network stack behind a mutex, which `Mqtt::publish` of
-- src/mqtt.rs and `Ntpc::get_time` of src/ntpc.rs hold from their first call to their last. Here each
-- of their calls is a step of its own, and the other task may run in between.
pub mod Atomic
pub mod Turn
pub mod Runs
pub mod Ends
pub mod Wants
pub mod Served
pub mod Arrives
pub mod Reaches
pub mod Messages
pub mod Logged
use esp_rf_ook.Prelude.{
  ℕ, ◌≡◌, Bool, true, false, Option, none, some, List, [], ◌∷◌, ◌++◌, ltb, if◌then◌else◌, Outcome,
  ok, panic,
}
use esp_rf_ook.Prelude.Words.{sub_u64, gt_i64}
use esp_rf_ook.Sensor.{SensorData, PackedStruct}
use esp_rf_ook.Network.{Network, Call}
use esp_rf_ook.Network.Program.{Program, ends, call_next}
use esp_rf_ook.Ntpc.{NtpcError}
use esp_rf_ook.Ntpc.Calls.{time_calls}
use esp_rf_ook.Mqtt.{MqttError}
use esp_rf_ook.Mqtt.Calls.{publish_calls}
use esp_rf_ook.Station.{Station, Action, resync_after, round}
use esp_rf_ook.Station.Effect.{sends}
use esp_rf_ook.Publisher.{Jiff, Post, silence_limit, post}
use esp_rf_ook.Channel.{Channel, send_all}
use esp_rf_ook.System.{Event, heard, delivered}
use esp_rf_ook.Device.{Device, Readings, round_with, delivery_with, is_ok, ntp_server, started}

-- What is used of embassy's `Mutex`: `lock` at the moment at which it is done, `none` while it waits,
-- and the end of the guard.
pub record Mutex (L : Type 0) : Type 0 where
  pub unlocked : L
  pub lock : L → Option L
  pub unlock : L → L

-- Its documentation: `lock` waits for the mutex to be unlocked if it is locked.
pub record IsMutex {L : Type 0} (m : Mutex L) : Type 0 where
  pub locked : L → Bool
  pub locked-unlocked : locked m.unlocked ≡ false
  pub lock_unlocked :
      (l : L) → locked l ≡ false → (l' : L) × (m.lock l ≡ some l') × (locked l' ≡ true)
  pub lock_locked : (l : L) → locked l ≡ true → m.lock l ≡ none
  pub locked-unlock : (l : L) → locked (m.unlock l) ≡ false

-- The device, and what is left of a call of `get_time` in the loop, with the clock that was checked
-- before it, and of a call of `publish` in the turn of the publisher, with the uptime in its text.
pub record Shared (Addr World C L : Type 0) : Type 0 where
  pub device : Device Addr World C
  pub mutex : L
  pub loop : Option (ℕ × Program Addr NtpcError ℕ)
  pub turn : Option (ℕ × Program Addr MqttError (Unit {0}))

-- Whether the hour is over.
abbrev pub is_due : ℕ → Station → Bool
is_due checked s = ltb resync_after (sub_u64 checked s.last_time_sync)

-- Whether the last publication is too long ago.
abbrev pub is_silent : ℕ → ℕ → Bool
is_silent timestamp last_publish = gt_i64 (sub_u64 timestamp last_publish) silence_limit

-- `publish` for this message.
abbrev pub message_calls :
    {Addr : Type 0}
    → Jiff
    → List ℕ
    → SensorData
    → ℕ
    → ℕ
    → Option Addr
    → Program Addr MqttError (Unit {0})
message_calls jiff server m timestamp uptime =
    let made = post jiff (delivery_with m timestamp uptime panic) in
    publish_calls made.topic made.text server

module _ {Addr World C L : Type 0} where
  module _ (n : Network Addr World) (q : Channel (SensorData × ℕ) C) (x : Mutex L)
      (is_timestamp : ℕ → Bool) (p : PackedStruct) (jiff : Jiff) (mqtt_server : List ℕ) where
    -- An error of `get_time` ends the loop, a long silence or a time that jiff does not take the turn.
    pub data Step : Shared Addr World C L → List Event → Shared Addr World C L → Type 0 where
      skips :
          (f : Shared Addr World C L) (checked : ℕ)
          → f.loop ≡ none
          → f.device.asked ≡ none
          → is_due checked f.device.station ≡ false
          → Step f [] (record f { device = record f.device { asked = some (checked, 0) } })
      locks_time :
          (f : Shared Addr World C L) (checked : ℕ) (l : L)
          → f.loop ≡ none
          → f.device.asked ≡ none
          → is_due checked f.device.station ≡ true
          → x.lock f.mutex ≡ some l
          → Step f []
              (record f { mutex = l; loop = some (checked, time_calls ntp_server f.device.ntpc) })
      calls_time :
          (f : Shared Addr World C L) (checked : ℕ) (rest next : Program Addr NtpcError ℕ)
          (world : World) (calls : List (Call Addr))
          → f.loop ≡ some (checked, rest)
          → call_next n rest f.device.world f.device.calls ≡ some (next, world, calls)
          → Step f [] (record f {
            device = record f.device { world = world; calls = calls };
            loop = some (checked, next);
          })
      ends_time :
          (f : Shared Addr World C L) (checked time : ℕ) (addr : Option Addr)
          → f.loop ≡ some (checked, ends (ok time) addr)
          → Step f [] (record f {
            device = record f.device { asked = some (checked, time); ntpc = addr };
            mutex = x.unlock f.mutex;
            loop = none;
          })
      listens :
          (f : Shared Addr World C L) (h : Readings) (time : ℕ) (station : Station)
          (actions : List Action) (channel : C)
          → f.device.asked ≡ some (h.checked, time)
          → round is_timestamp p f.device.station (round_with h (ok time)) ≡ some (station, actions)
          → send_all q (sends actions) f.device.channel ≡ some channel
          → Step f (heard (round_with h (ok time)) ∷ []) (record f {
            device = record f.device { station = station; asked = none; channel = channel };
          })
      takes :
          (f : Shared Addr World C L) (m : SensorData × ℕ) (channel : C)
          → f.device.in_hand ≡ none
          → q.receive f.device.channel ≡ some (m, channel)
          → Step f []
              (record f { device = record f.device { channel = channel; in_hand = some m } })
      locks_message :
          (f : Shared Addr World C L) (m : SensorData) (timestamp uptime : ℕ) (l : L)
          → f.turn ≡ none
          → f.device.in_hand ≡ some (m, timestamp)
          → is_silent timestamp f.device.last_publish ≡ false
          → jiff.is_timestamp timestamp ≡ true
          → x.lock f.mutex ≡ some l
          → Step f [] (record f {
            mutex = l;
            turn = some (uptime, message_calls jiff mqtt_server m timestamp uptime f.device.mqtt);
          })
      calls_message :
          (f : Shared Addr World C L) (uptime : ℕ) (rest next : Program Addr MqttError (Unit {0}))
          (world : World) (calls : List (Call Addr))
          → f.turn ≡ some (uptime, rest)
          → call_next n rest f.device.world f.device.calls ≡ some (next, world, calls)
          → Step f [] (record f {
            device = record f.device { world = world; calls = calls };
            turn = some (uptime, next);
          })
      ends_message :
          (f : Shared Addr World C L) (m : SensorData) (timestamp uptime : ℕ)
          (result : Outcome MqttError (Unit {0})) (addr : Option Addr)
          → f.device.in_hand ≡ some (m, timestamp)
          → f.turn ≡ some (uptime, ends result addr)
          → Step f
              (delivered
                  (delivery_with m timestamp uptime result)
                  (post jiff (delivery_with m timestamp uptime result))
                ∷ [])
              (record f {
                device = record f.device {
                  in_hand = none;
                  last_publish = if is_ok result then timestamp else f.device.last_publish;
                  mqtt = addr;
                };
                mutex = x.unlock f.mutex;
                turn = none;
              })

    pub data Steps (s : Shared Addr World C L) : List Event → Shared Addr World C L → Type 0 where
      here : Steps s [] s
      next :
          {es : List Event} {t u : Shared Addr World C L} (new : List Event)
          → Steps s es t
          → Step t new u
          → Steps s (new ++ es) u

  -- When both tasks start: the mutex is unlocked.
  abbrev pub shared_started :
      Channel (SensorData × ℕ) C → Mutex L → ℕ → ℕ → ℕ → Option Addr → World → Shared Addr World C L
  shared_started q x last_time_sync last_publish publisher_now ntpc world = record {
    device = started q last_time_sync last_publish publisher_now ntpc world;
    mutex = x.unlocked;
    loop = none;
    turn = none;
  }
