-- ===== src/Tests/Devices.antt =====
-- The device on a network that accepts everything: four frames, the publication of the one message
-- they make, and the re-synchronisation an hour later.
use esp_rf_ook.Prelude.{ℕ, ◌+◌, ◌≡◌, ◌≤◌, refl, none, true, some, List, [], ◌∷◌, arith, ok}
use esp_rf_ook.Text.{codes}
use esp_rf_ook.Network.{Network, Client, seconds, resolve}
use esp_rf_ook.Ntpc.{get_time}
use esp_rf_ook.Ntpc
use esp_rf_ook.Mqtt.{publish}
use esp_rf_ook.Mqtt
use esp_rf_ook.Station.{
  Station, Round, timer, feed, set_current_time_us, send, start, on_received, resync, round,
}
use esp_rf_ook.System.{Event, heard}
use esp_rf_ook.Device.{
  takes, Device, Readings, round_with, client, time_for, publish_message, Steps, here, next, hears,
  publishes, started, ntp_server,
}
use esp_rf_ook.Tests.Decoding.{unpacker}
use esp_rf_ook.Tests.Stations.{any_time, heard_at, mild}
use esp_rf_ook.Tests.Publishing.{clock}
use esp_rf_ook.Tests.Queues.{Messages, queue}
use esp_rf_ook.Tests.Systems.{
  nothing_sent, first_sent, counted, quiet, first_frame, second_frame, third_frame, fourth_frame,
  the_delivery, the_post, events,
}

abbrev pub network : Network ℕ ℕ
network = record {
  query = λ name world. (some (99 ∷ []), world + 1);
  attempt = λ call world. (true, world + 1);
  request = λ addr port world. (seconds 1700000000, world + 1);
}

abbrev pub broker : List ℕ
broker = codes "broker"

abbrev pub reading : Round → Readings
reading r = record {
  checked = r.checked;
  synced = r.synced;
  shown = r.shown;
  received = r.received;
  now = r.now;
}

abbrev pub listening : ℕ → Device ℕ ℕ Messages
listening n = record (started queue 0 0 0 (some 99) 0) { station = counted n 0 }

abbrev loaded : Device ℕ ℕ Messages
loaded = record (started queue 0 0 0 (some 99) 0) {
  station = counted 3 7000000;
  channel = (mild, 7000000) ∷ [];
}

abbrev with_message : Device ℕ ℕ Messages
with_message = record loaded { channel = []; in_hand = some (mild, 7000000) }

abbrev published : Client ℕ ℕ
published = (publish_message network clock broker with_message mild 7000000 12).1

abbrev at_rest : Device ℕ ℕ Messages
at_rest = record {
  station = counted 3 7000000;
  asked = none;
  channel = [];
  in_hand = none;
  last_publish = 7000000;
  ntpc = some 99;
  mqtt = published.addr;
  world = published.world;
  calls = published.calls;
}

pub not_due :
    (n t : ℕ)
    → t ≤ 7000000
    → time_for network (listening n) t ≡ (ok 0, client (some 99) (listening n))
unfolding time_for
not_due n t h = ground arith

sent : publish_message network clock broker with_message mild 7000000 12 ≡ (ok tt, published)
unfolding publish_message publish resolve Mqtt.exchange
sent = refl

started_early :
    time_for network (started queue 0 0 0 (some 99) 0) 1000000
    ≡ (ok 0, client (some 99) (listening 0))
unfolding time_for start
started_early = refl

first_two :
    Steps network queue any_time unpacker clock broker
      (started queue 0 0 0 (some 99) 0)
      (heard (heard_at 1100000) ∷ heard (heard_at 1000000) ∷ [])
      (listening 2)
first_two =
    hears network queue any_time unpacker clock broker (listening 1) (reading (heard_at 1100000)) 0
      (client (some 99) (listening 1)) (counted 2 0) quiet []
      (hears network queue any_time unpacker clock broker (started queue 0 0 0 (some 99) 0)
        (reading (heard_at 1000000)) 0 (client (some 99) (listening 0)) (counted 1 0) quiet [] here
        refl started_early first_frame (nothing_sent []))
      refl (not_due 1 1100000 (omega arith)) second_frame (nothing_sent [])

all_four :
    Steps network queue any_time unpacker clock broker
      (started queue 0 0 0 (some 99) 0)
      (heard (heard_at 7000000)
        ∷ heard (heard_at 1200000)
        ∷ heard (heard_at 1100000)
        ∷ heard (heard_at 1000000)
        ∷ [])
      loaded
all_four =
    hears network queue any_time unpacker clock broker (listening 3) (reading (heard_at 7000000)) 0
      (client (some 99) (listening 3)) (counted 3 7000000) (feed ∷ feed ∷ send mild 7000000 ∷ []) _
      (hears network queue any_time unpacker clock broker (listening 2) (reading (heard_at 1200000))
        0 (client (some 99) (listening 2)) (counted 3 0) quiet [] first_two refl
        (not_due 2 1200000 (omega arith)) third_frame (nothing_sent []))
      refl (not_due 3 7000000 (omega arith)) fourth_frame first_sent

steps :
    Steps network queue any_time unpacker clock broker
      (started queue 0 0 0 (some 99) 0)
      events
      at_rest
steps = next _ (next _ all_four (takes loaded (mild, 7000000) [] refl refl)) (
    publishes with_message mild 7000000 12 (ok tt) published 7000000 the_post refl sent
      the_delivery)

abbrev pub hour_later : Readings
hour_later = record {
  checked = 4000000000;
  synced = 1700000000000000;
  shown = 1700000000000100;
  received = timer;
  now = 1700000001000000;
}

abbrev asked : Client ℕ ℕ
asked = (get_time network ntp_server (client (some 99) at_rest)).1

due : time_for network at_rest 4000000000 ≡ (ok 1700000000, asked)
unfolding time_for get_time resolve Ntpc.exchange
due = refl

abbrev resynced : Station
resynced = record (counted 3 7000000) { last_time_sync = 1700000000000000 }

fifth_round :
    round any_time unpacker (counted 3 7000000) (round_with hour_later (ok 1700000000))
    ≡ some (resynced, feed ∷ set_current_time_us 1700000000000000 ∷ feed ∷ [])
unfolding round resync on_received
fifth_round = refl

abbrev all_events : List Event
all_events = heard (round_with hour_later (ok 1700000000)) ∷ events

abbrev at_end : Device ℕ ℕ Messages
at_end = record at_rest {
  station = resynced;
  ntpc = asked.addr;
  world = asked.world;
  calls = asked.calls;
}

-- The run of a message, and a re-synchronisation an hour later.
longer_run :
    Steps network queue any_time unpacker clock broker
      (started queue 0 0 0 (some 99) 0)
      all_events
      at_end
longer_run =
    hears network queue any_time unpacker clock broker at_rest hour_later 1700000000 asked resynced
      (feed ∷ set_current_time_us 1700000000000000 ∷ feed ∷ []) [] steps refl due fifth_round
      (nothing_sent [])
