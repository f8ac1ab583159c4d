-- ===== src/Shared/Turn.antt =====
-- A step while `publish` is being called.
use esp_rf_ook.Prelude.{ap, ◌∷◌, ℕ, ◌≡◌, refl, sym, ◌∙◌, Bool, Option, none, some, List, ◌++◌}
use esp_rf_ook.Sensor.{SensorData, PackedStruct}
use esp_rf_ook.Network.{Network}
use esp_rf_ook.Network.Program.{Program, call_all, call_all-call_next, call_next-calls}
use esp_rf_ook.Mqtt.{MqttError}
use esp_rf_ook.Publisher.{Jiff}
use esp_rf_ook.Station.{Station}
use esp_rf_ook.Channel.{Channel}
use esp_rf_ook.System.{Event}
use esp_rf_ook.Device
use esp_rf_ook.Device.{
  Device, client, ntp_server, started, delivery_with, is_ok, time_for, publish_message,
}
use esp_rf_ook.Publisher.{deliver}
use esp_rf_ook.Shared.Atomic.{Publishing, Atomic, free, publishing, Atomic-Publishing, delivers}
use esp_rf_ook.Shared.{
  Mutex, IsMutex, Shared, Step, skips, locks_time, calls_time, ends_time, listens, takes,
  locks_message, calls_message, ends_message,
}

module _ {Addr World C L : Type 0} (n : Network Addr World) (q : Channel (SensorData × ℕ) C)
    (x : Mutex L) (law : IsMutex x) (is_timestamp : ℕ → Bool) (p : PackedStruct) (jiff : Jiff)
    (mqtt_server : List ℕ) (s : Device Addr World C) where
  module _ {es : List Event} where
    -- The loop goes on without a call.
    Publishing-aside :
        {f : Shared Addr World C L} {m : SensorData} {timestamp uptime : ℕ}
        {rest : Program Addr MqttError (Unit {0})} {new : List Event} (station : Station)
        (asked : Option (ℕ × ℕ)) (channel : C)
        → (a : Publishing n q x law is_timestamp p jiff mqtt_server s es f m timestamp uptime rest)
        → Device.Step n q is_timestamp p jiff mqtt_server
            (record f.device { world = a.world; calls = a.calls })
            new
            (record f.device {
              station = station;
              asked = asked;
              channel = channel;
              world = a.world;
              calls = a.calls;
            })
        → Publishing n q x law is_timestamp p jiff mqtt_server s
            (new ++ es)
            (record f {
              device = record f.device { station = station; asked = asked; channel = channel };
            })
            m
            timestamp
            uptime
            rest
    unfolding publish_message
    Publishing-aside station asked channel a step = record {
      no_loop = a.no_loop;
      held = a.held;
      heard = a.heard;
      timed = a.timed;
      world = a.world;
      calls = a.calls;
      reached = Device.next _ a.reached step;
      made = a.made;
      grown = a.grown;
      same = a.same;
    }

    pub Publishing-Step :
        {f f' : Shared Addr World C L} {new : List Event}
        → Step n q x is_timestamp p jiff mqtt_server f new f'
        → (m : SensorData) (timestamp uptime : ℕ) (rest : Program Addr MqttError (Unit {0}))
        → f.device.in_hand ≡ some (m, timestamp)
        → f.turn ≡ some (uptime, rest)
        → Publishing n q x law is_timestamp p jiff mqtt_server s es f m timestamp uptime rest
        → Atomic n q x law is_timestamp p jiff mqtt_server s (new ++ es) f'
    unfolding time_for publish_message call_all deliver
    Publishing-Step (skips f checked off idle early) m timestamp uptime rest i h a =
        publishing m timestamp uptime rest i h (
          Publishing-aside f.device.station (some (checked, 0)) f.device.channel a
            (Device.asks _ checked 0 _ idle (rw early)))
    Publishing-Step (locks_time f checked l off idle due locks) m timestamp uptime rest i h a =
        cc (sym (law.lock_locked f.mutex a.held) ∙ locks)
    Publishing-Step (calls_time f checked rest later world calls h called) _ _ _ _ _ _ a =
        cc (sym a.no_loop ∙ h)
    Publishing-Step (ends_time f checked time addr h) _ _ _ _ _ _ a = cc (sym a.no_loop ∙ h)
    Publishing-Step (listens f h time station actions channel heard done sent) m timestamp uptime
          rest i e a =
        publishing m timestamp uptime rest i e (
          Publishing-aside station none channel a
            (Device.listens _ h time station actions channel heard done sent))
    Publishing-Step (takes f m channel idle received) _ timestamp uptime rest i e a =
        cc (sym idle ∙ i)
    Publishing-Step (locks_message f m timestamp uptime l off i loud timed locks) m' timestamp'
          uptime' rest i' h a =
        cc (sym off ∙ h)
    Publishing-Step (calls_message f uptime rest later world calls h called) m timestamp uptime'
          rest' i h' a' =
        let a =
          Atomic-Publishing n q x law is_timestamp p jiff mqtt_server s i h
            (publishing m timestamp uptime' rest' i h' a') in
        let (call, noted) = call_next-calls n rest f.device.world f.device.calls called in
        publishing m timestamp uptime later i refl (record {
          no_loop = a.no_loop;
          held = a.held;
          heard = a.heard;
          timed = a.timed;
          world = a.world;
          calls = a.calls;
          reached = a.reached;
          made = call ∷ a.made;
          grown = noted ∙ ap (◌∷◌ call) a.grown;
          same = call_all-call_next n rest f.device.world f.device.calls called ∙ a.same;
        })
    Publishing-Step (ends_message f m timestamp uptime result addr i h) m' timestamp' uptime' rest'
          i' h' a' =
        let a =
          Atomic-Publishing n q x law is_timestamp p jiff mqtt_server s i h
            (publishing m' timestamp' uptime' rest' i' h' a') in
        free a.no_loop refl (law.locked-unlock f.mutex) (
          Device.next _ a.reached (
            Device.publishes _ m timestamp uptime result _ _ _ i (sym a.same)
              (delivers jiff m timestamp uptime f.device.last_publish result a.heard a.timed)))
