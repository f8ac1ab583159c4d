-- ===== src/Tests/Locks.antt =====
-- The single calls of the two tasks: a round of the loop between the calls of `publish`.
use esp_rf_ook.Prelude.{
  ◌↔◌, ℕ, ◌≡◌, refl, ◌⊎◌, Bool, true, false, Option, none, some, List, [], ◌∷◌, ok,
}
use esp_rf_ook.Network.Program.{Program, ends, attempts, or_fail, call_next, first_of, resolves}
use esp_rf_ook.Mqtt.Calls.{exchange_calls, publish_calls}
use esp_rf_ook.Network.{
  dns_query, connect, connect_to_broker, send_message, disconnect, flush, wait, close, abort,
}
use esp_rf_ook.Station.{Station, Action, timer, start, resync, on_received, round}
use esp_rf_ook.Station.Effect.{sends}
use esp_rf_ook.Channel.{send_all}
use esp_rf_ook.Publisher.{post}
use esp_rf_ook.System.{Event, heard}
use esp_rf_ook.Device.{Device, Readings, round_with, started}
use esp_rf_ook.Shared.{
  Mutex, IsMutex, Shared, is_due, shared_started, Steps, here, next, skips, listens, takes,
  locks_message, calls_message,
}
use esp_rf_ook.Shared.Atomic.{Atomic}
use esp_rf_ook.Shared.Runs.{Steps-Atomic}
use esp_rf_ook.Shared.Wants.{LoopFails}
use esp_rf_ook.Shared.Arrives.{Sent, Steps-Sent}
use esp_rf_ook.Shared.{locks_time}
use esp_rf_ook.Ntpc.Calls.{time_calls}
use esp_rf_ook.Device.{ntp_server}
use esp_rf_ook.Tests.Arrivals.{accepting}
use esp_rf_ook.Shared.Reaches.{Reaches, Steps-equivalent}
use esp_rf_ook.Device
use esp_rf_ook.Mqtt.{MqttError, disconnect_failed, flush_error}
use esp_rf_ook.Tests.Decoding.{unpacker}
use esp_rf_ook.Tests.Stations.{any_time, heard_at, mild}
use esp_rf_ook.Tests.Publishing.{clock}
use esp_rf_ook.Tests.Queues.{Messages, queue}
use esp_rf_ook.Tests.Systems.{
  nothing_sent, first_sent, counted, quiet, first_frame, second_frame, third_frame, fourth_frame,
  the_post,
}
use esp_rf_ook.Tests.Devices.{network, broker, reading, listening}

abbrev pub lock_of : Bool → Option Bool
lock_of false = some true
lock_of true = none

abbrev pub mutex : Mutex Bool
mutex = record { unlocked = false; lock = lock_of; unlock = λ l. false }

pub lock_of_unlocked : (l : Bool) → l ≡ false → (l' : Bool) × (lock_of l ≡ some l') × (l' ≡ true)
lock_of_unlocked l e = (true, rw e, refl)

pub lock_of_locked : (l : Bool) → l ≡ true → lock_of l ≡ none
lock_of_locked l e = rw e

abbrev pub mutex_laws : IsMutex mutex
mutex_laws = record {
  locked = λ l. l;
  locked-unlocked = refl;
  lock_unlocked = lock_of_unlocked;
  lock_locked = lock_of_locked;
  locked-unlock = λ l. refl;
}

abbrev pub Run : List Event → Shared ℕ ℕ Messages Bool → Type 0
Run =
    Steps network queue mutex any_time unpacker clock broker
      (shared_started queue mutex 0 0 0 (some 99) 7)

hears :
    {es : List Event} (f : Shared ℕ ℕ Messages Bool) (h : Readings) (station : Station)
    (actions : List Action) (channel : Messages)
    → Run es f
    → f.loop ≡ none
    → f.device.asked ≡ none
    → is_due h.checked f.device.station ≡ false
    → round any_time unpacker f.device.station (round_with h (ok 0)) ≡ some (station, actions)
    → send_all queue (sends actions) f.device.channel ≡ some channel
    → Run (heard (round_with h (ok 0)) ∷ es) (record f {
      device = record f.device { station = station; asked = none; channel = channel };
    })
hears f h station actions channel run off idle early done sent =
    next _ (next _ run (skips f h.checked off idle early))
      (listens _ h 0 station actions channel refl done sent)

-- The first call of `get_time` has taken the world seven calls on.
abbrev heard_of : ℕ → Device ℕ ℕ Messages
heard_of k = record (listening k) { world = 7 }

abbrev at : Device ℕ ℕ Messages → Shared ℕ ℕ Messages Bool
at d = record { device = d; mutex = false; loop = none; turn = none }

abbrev pub frames : List Event
frames =
    heard (heard_at 7000000)
    ∷ heard (heard_at 1200000)
    ∷ heard (heard_at 1100000)
    ∷ heard (heard_at 1000000)
    ∷ []

abbrev loaded : Device ℕ ℕ Messages
loaded = record (heard_of 3) { station = counted 3 7000000; channel = (mild, 7000000) ∷ [] }

four : Run frames (at loaded)
unfolding start
four =
    hears (at (heard_of 3)) (reading (heard_at 7000000)) _ _ _
      (hears (at (heard_of 2)) (reading (heard_at 1200000)) _ _ _
        (hears (at (heard_of 1)) (reading (heard_at 1100000)) _ _ _
          (hears (at (started queue 0 0 0 (some 99) 7)) (reading (heard_at 1000000)) _ _ _ here refl
            refl refl first_frame (nothing_sent []))
          refl refl refl second_frame (nothing_sent []))
        refl refl refl third_frame (nothing_sent []))
      refl refl refl fourth_frame first_sent

abbrev with_message : Device ℕ ℕ Messages
with_message = record (heard_of 3) { station = counted 3 7000000; in_hand = some (mild, 7000000) }

-- What is left once the message is sent.
abbrev pub rest : Program ℕ MqttError (Unit {0})
rest = attempts disconnect (
    or_fail disconnect_failed (
      attempts flush (
        or_fail flush_error (
          attempts (wait 100) λ _.
            attempts close
              λ _. attempts (wait 100) λ _. attempts abort λ _. ends (ok tt) (some 99)))))

abbrev pub sending : Shared ℕ ℕ Messages Bool
sending = record {
  device = record with_message {
    world = 11;
    calls =
        send_message the_post.topic the_post.text
        ∷ connect_to_broker
        ∷ connect 99 1883
        ∷ dns_query broker
        ∷ [];
  };
  mutex = true;
  loop = none;
  turn = some (12, rest);
}

abbrev second_later : Readings
second_later = record { checked = 8000000; synced = 0; shown = 0; received = timer; now = 8000000 }

quiet_round :
    round any_time unpacker (counted 3 7000000) (round_with second_later (ok 0))
    ≡ some (counted 3 7000000, quiet)
unfolding round resync on_received
quiet_round = refl

abbrev pub all_rounds : List Event
all_rounds = heard (round_with second_later (ok 0)) ∷ frames

locked : Run frames (record (at with_message) {
  mutex = true;
  turn = some (12, publish_calls the_post.topic the_post.text broker none);
})
unfolding post
locked =
    next _ (next _ four (takes _ (mild, 7000000) [] refl refl))
      (locks_message (at with_message) mild 7000000 12 true refl refl refl refl refl)

pub interleaved : Run all_rounds sending
unfolding call_next publish_calls exchange_calls resolves first_of post
interleaved =
    hears sending second_later _ _ _
      (next _
        (next _
          (next _ (next _ locked (calls_message _ 12 _ _ _ _ refl refl))
            (calls_message _ 12 _ _ _ _ refl refl))
          (calls_message _ 12 _ _ _ _ refl refl))
        (calls_message _ 12 _ _ _ _ refl refl))
      refl refl refl quiet_round (nothing_sent [])

Steps-Atomic_example :
    Atomic network queue mutex mutex_laws any_time unpacker clock broker
      (started queue 0 0 0 (some 99) 7)
      all_rounds
      sending
Steps-Atomic_example =
    Steps-Atomic network queue mutex mutex_laws any_time unpacker clock broker 0 0 0 (some 99) 7
      interleaved

Steps-equivalent_example :
    Device.Steps network queue any_time unpacker clock broker
      (started queue 0 0 0 (some 99) 7)
      frames
      loaded
    ↔ Reaches network queue mutex mutex_laws any_time unpacker clock broker
        (shared_started queue mutex 0 0 0 (some 99) 7)
        frames
        loaded
Steps-equivalent_example =
    Steps-equivalent network queue mutex mutex_laws any_time unpacker clock broker 0 0 0 (some 99) 7
      frames loaded

-- The loop has the lock, and the publisher a message in hand.
abbrev asking_time : Shared ℕ ℕ Messages Bool
asking_time = record {
  device = with_message;
  mutex = true;
  loop = some (4000000000, time_calls ntp_server (some 99));
  turn = none;
}

hour_over : Run frames asking_time
hour_over =
    next _ (next _ four (takes _ (mild, 7000000) [] refl refl))
      (locks_time (at with_message) 4000000000 true refl refl refl refl)

Steps-Sent_example :
    Sent network queue mutex mutex_laws any_time unpacker clock broker accepting asking_time mild
      7000000
    ⊎ LoopFails network queue mutex mutex_laws any_time unpacker clock broker asking_time
Steps-Sent_example =
    Steps-Sent network queue mutex mutex_laws any_time unpacker clock broker accepting 0 0 0
      (some 99) 7 asking_time mild 7000000 hour_over refl refl refl
