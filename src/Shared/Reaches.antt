-- ===== src/Shared/Reaches.antt =====
-- What the device does with a call of a client as one step, it does with single calls.
use mathlib.Core.Path.{subst}
use mathlib.Core.Option.{some-injective}
use esp_rf_ook.Prelude.{
  ℕ, ◌≡◌, ◌↔◌, refl, sym, ◌∙◌, inl, inr, Bool, true, false, Bool-cases, Option, none, some, List,
  ◌∷◌, ◌++◌, Outcome, ok, err, panic, arith,
}
use esp_rf_ook.Sensor.{SensorData, PackedStruct}
use esp_rf_ook.Network.{Network, Client}
use esp_rf_ook.Ntpc.{NtpcError}
use esp_rf_ook.Mqtt.{MqttError}
use esp_rf_ook.Publisher.{Jiff, Delivery, Post, deliver}
use esp_rf_ook.Channel.{Channel}
use esp_rf_ook.System.{Event, delivered}
use esp_rf_ook.Device
use esp_rf_ook.Device.{Device, delivery_with, is_ok, client, time_for, publish_message, started}
use esp_rf_ook.Shared.{
  Mutex, IsMutex, Shared, is_due, is_silent, shared_started, Steps, here, next, skips, locks_time,
  listens, takes, locks_message,
}
use esp_rf_ook.Shared.Atomic.{Atomic, free, asking, publishing, delivers, time_lem, message_lem}
use esp_rf_ook.Shared.Runs.{Steps-Atomic}
use esp_rf_ook.Shared.Ends.{sharing, turn_ends, loop_ends}

abbrev time_of : Outcome NtpcError ℕ → ℕ
time_of (ok time) = time
time_of (err e) = 0
time_of panic = 0

-- A turn that does not panic.
deliver_inv :
    (jiff : Jiff) (last last' : ℕ) (d : Delivery) (posted : Post)
    → deliver jiff last d ≡ some (last', posted)
    → (is_silent d.timestamp last ≡ false) × (jiff.is_timestamp d.timestamp ≡ true)
unfolding deliver
deliver_inv jiff last last' d posted e = (ground arith, ground arith)

module _ {Addr World : Type 0} (n : Network Addr World) where
  time_for_early :
      {C : Type 0} (d : Device Addr World C) (checked : ℕ)
      → is_due checked d.station ≡ false
      → time_for n d checked ≡ (ok 0, client d.ntpc d)
  unfolding time_for
  time_for_early d checked early = rw early

module _ {Addr World C L : Type 0} (n : Network Addr World) (q : Channel (SensorData × ℕ) C)
    (x : Mutex L) (law : IsMutex x) (is_timestamp : ℕ → Bool) (p : PackedStruct) (jiff : Jiff)
    (mqtt_server : List ℕ) where
  -- A run of single calls to where the device is, and the lock is free.
  abbrev pub Reaches : Shared Addr World C L → List Event → Device Addr World C → Type 0
  Reaches t es d =
      (l : L) × (law.locked l ≡ false)
      × Steps n q x is_timestamp p jiff mqtt_server t es (sharing d l none none)

  module _ {t : Shared Addr World C L} {es : List Event} where
    asks_Reaches :
        (d : Device Addr World C) (checked time : ℕ) (c : Client Addr World)
        → d.asked ≡ none
        → time_for n d checked ≡ (ok time, c)
        → Reaches t es d
        → Reaches t es (record d {
          asked = some (checked, time);
          ntpc = c.addr;
          world = c.world;
          calls = c.calls;
        })
    asks_Reaches d checked time c idle answered (l, unlocked, run) =
        elim (Bool-cases (is_due checked d.station)) [
          | inl due ↦
              let (l', locks, _) = law.lock_unlocked l unlocked in
              (
                x.unlock l',
                law.locked-unlock l',
                loop_ends n q x is_timestamp p jiff mqtt_server _ d l' none checked time c
                    (time_lem n d checked due ∙ answered)
                    (next _ run (locks_time _ checked l' refl idle due locks)),
              )
          | inr early ↦ (
            l,
            unlocked,
            subst
                (λ r. Steps n q x is_timestamp p jiff mqtt_server t es (
                  sharing
                    (record d {
                      asked = some (checked, time_of r.0);
                      ntpc = r.1.addr;
                      world = r.1.world;
                      calls = r.1.calls;
                    })
                    l none none))
                (sym (time_for_early n d checked early) ∙ answered)
                (next _ run (skips _ checked refl idle early)),
          )
        ]

    publishes_Reaches :
        (d : Device Addr World C) (m : SensorData) (timestamp uptime : ℕ)
        (result : Outcome MqttError (Unit {0})) (c : Client Addr World) (last : ℕ) (posted : Post)
        → d.in_hand ≡ some (m, timestamp)
        → publish_message n jiff mqtt_server d m timestamp uptime ≡ (result, c)
        → deliver jiff d.last_publish (delivery_with m timestamp uptime result)
          ≡ some (last, posted)
        → Reaches t es d
        → Reaches t (delivered (delivery_with m timestamp uptime result) posted ∷ es) (record d {
          in_hand = none;
          last_publish = last;
          mqtt = c.addr;
          world = c.world;
          calls = c.calls;
        })
    publishes_Reaches d m timestamp uptime result c last posted i sent done (l, unlocked, run) =
        let (loud, timed) = deliver_inv jiff d.last_publish last _ posted done in
        let (l', locks, _) = law.lock_unlocked l unlocked in
        let run' =
          turn_ends n q x is_timestamp p jiff mqtt_server _ d l' none m timestamp uptime result c i
            (message_lem n jiff mqtt_server d m timestamp uptime ∙ sent)
            (next _ run (locks_message _ m timestamp uptime l' refl i loud timed locks)) in
        (
          x.unlock l',
          law.locked-unlock l',
          subst
              (λ y.
                Steps n q x is_timestamp p jiff mqtt_server t
                  (delivered (delivery_with m timestamp uptime result) y.1 ∷ es)
                  (sharing
                    (record d {
                      in_hand = none;
                      last_publish = y.0;
                      mqtt = c.addr;
                      world = c.world;
                      calls = c.calls;
                    })
                    (x.unlock l') none none))
              (some-injective _ _
                (sym (delivers jiff m timestamp uptime d.last_publish result loud timed) ∙ done))
              run',
        )

    Step-Reaches :
        {new : List Event} {d d' : Device Addr World C}
        → Device.Step n q is_timestamp p jiff mqtt_server d new d'
        → Reaches t es d
        → Reaches t (new ++ es) d'
    Step-Reaches (Device.asks d checked time c idle answered) h =
        asks_Reaches d checked time c idle answered h
    Step-Reaches (Device.listens d h time station actions channel asked done sent)
          (l, unlocked, run) =
        (l, unlocked, next _ run (listens _ h time station actions channel asked done sent))
    Step-Reaches (Device.takes d m channel idle received) (l, unlocked, run) =
        (l, unlocked, next _ run (takes _ m channel idle received))
    Step-Reaches (Device.publishes d m timestamp uptime result c last posted i sent done) h =
        publishes_Reaches d m timestamp uptime result c last posted i sent done h

  module _ (last_time_sync last_publish publisher_now : ℕ) (ntpc : Option Addr)
      (world : World) where
    Steps-Reaches :
        {es : List Event} {d : Device Addr World C}
        → Device.Steps n q is_timestamp p jiff mqtt_server
            (started q last_time_sync last_publish publisher_now ntpc world)
            es
            d
        → Reaches (shared_started q x last_time_sync last_publish publisher_now ntpc world) es d
    Steps-Reaches Device.here = (x.unlocked, law.locked-unlocked, here)
    Steps-Reaches (Device.next new steps step) = Step-Reaches step (Steps-Reaches steps)

    Atomic-free :
        (l : L) {es : List Event} {d : Device Addr World C}
        → Atomic n q x law is_timestamp p jiff mqtt_server
            (started q last_time_sync last_publish publisher_now ntpc world)
            es
            (sharing d l none none)
        → Device.Steps n q is_timestamp p jiff mqtt_server
            (started q last_time_sync last_publish publisher_now ntpc world)
            es
            d
    Atomic-free l (free _ _ _ reached) = reached
    Atomic-free l (asking checked rest h _) = cc h
    Atomic-free l (publishing m timestamp uptime rest _ h _) = cc h

    -- With a call of a client as one step, and with every await of it as a step of its own and the
    -- other task in between, the device reaches the same states, by the same events, where the lock is
    -- free and no call is being made; if the mutex keeps its laws.
    pub Steps-equivalent :
        (es : List Event) (d : Device Addr World C)
        → Device.Steps n q is_timestamp p jiff mqtt_server
            (started q last_time_sync last_publish publisher_now ntpc world)
            es
            d
          ↔ Reaches (shared_started q x last_time_sync last_publish publisher_now ntpc world) es d
    Steps-equivalent es d = (
      Steps-Reaches,
      λ (l, _, run). Atomic-free l (
          Steps-Atomic n q x law is_timestamp p jiff mqtt_server last_time_sync last_publish
            publisher_now ntpc world run),
    )
