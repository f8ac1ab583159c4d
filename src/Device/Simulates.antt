-- ===== src/Device/Simulates.antt =====
-- The device is the system of the two tasks, with the replies that the network gives them.
use esp_rf_ook.Prelude.{ℕ, Bool, Option, List, ◌++◌, ok}
use esp_rf_ook.Sensor.{PackedStruct}
use esp_rf_ook.Network.{Network}
use esp_rf_ook.Publisher.{Jiff}
use esp_rf_ook.Sensor.{SensorData}
use esp_rf_ook.Channel.{Channel}
use esp_rf_ook.System
use esp_rf_ook.System.{System, Event, fresh}
use esp_rf_ook.Device.{
  Device, Step, asks, listens, takes, publishes, Steps, here, next, delivery_with, round_with,
  started,
}

module _ {Addr World C : Type 0} where
  -- What the two tasks see.
  abbrev pub system_of : Device Addr World C → System C
  system_of d = record {
    station = d.station;
    channel = d.channel;
    in_hand = d.in_hand;
    last_publish = d.last_publish;
  }

  module _ (n : Network Addr World) (q : Channel (SensorData × ℕ) C) (is_timestamp : ℕ → Bool)
      (p : PackedStruct) (jiff : Jiff) (mqtt_server : List ℕ) where
    -- The hourly check alone is nothing that the system sees.
    Step-System :
        {s : System C} {es new : List Event} {d d' : Device Addr World C}
        → Step n q is_timestamp p jiff mqtt_server d new d'
        → System.Steps q is_timestamp p jiff s es (system_of d)
        → System.Steps q is_timestamp p jiff s (new ++ es) (system_of d')
    Step-System (asks d checked time c idle answered) steps = steps
    Step-System (listens d h time station actions channel answered e sent) steps =
        System.next _ steps
          (System.receives (system_of d) (round_with h (ok time)) station actions channel e sent)
    Step-System (takes d m channel idle received) steps =
        System.next _ steps (System.takes (system_of d) m channel idle received)
    Step-System (publishes d m timestamp uptime result c last posted front sent e) steps =
        System.next _ steps (
          System.publishes (system_of d) (delivery_with m timestamp uptime result) last posted front
            e)

    -- Whatever the network answers, what the device does is what the system of the two tasks does with
    -- these answers.
    pub Steps-System :
        (last_time_sync last_publish publisher_now : ℕ) (ntpc : Option Addr) (world : World)
        {es : List Event} {d : Device Addr World C}
        → Steps n q is_timestamp p jiff mqtt_server
            (started q last_time_sync last_publish publisher_now ntpc world)
            es
            d
        → System.Steps q is_timestamp p jiff
            (fresh q last_time_sync last_publish publisher_now)
            es
            (system_of d)
    Steps-System last_time_sync last_publish publisher_now ntpc world here = System.here
    Steps-System last_time_sync last_publish publisher_now ntpc world (next new steps step) =
        Step-System step (Steps-System last_time_sync last_publish publisher_now ntpc world steps)
