-- ===== src/Tests/PowerUps.antt =====
-- A start, and the first hour after it.
use esp_rf_ook.Prelude.{ℕ, ◌≡◌, refl, some, [], ◌∷◌, ok}
use esp_rf_ook.Network.{dns_query, Client, resolve}
use esp_rf_ook.Ntpc.{get_time}
use esp_rf_ook.Ntpc
use esp_rf_ook.Station.{feed, set_current_time_us, start, on_received, resync, round}
use esp_rf_ook.System.{heard}
use esp_rf_ook.Device.{
  Device, round_with, client, time_for, Steps, here, hears, started, ntp_server,
}
use esp_rf_ook.Device.LookUps.{Only}
use esp_rf_ook.Device.PowerUp.{powered_up}
use esp_rf_ook.Boot.{Answers, boot, done, wait_connected}
use esp_rf_ook.Boot
use esp_rf_ook.Wifi
use esp_rf_ook.Wifi.{connection, connections, wait_for_link}
use esp_rf_ook.Boot.Start.{full_start}
use esp_rf_ook.Ntpc.Outcomes.{closed_calls}
use esp_rf_ook.Tests.Starts.{good_start}
use esp_rf_ook.Tests.Decoding.{unpacker}
use esp_rf_ook.Tests.Stations.{any_time}
use esp_rf_ook.Tests.Publishing.{clock}
use esp_rf_ook.Tests.Queues.{Messages, queue}
use esp_rf_ook.Tests.Systems.{nothing_sent}
use esp_rf_ook.Tests.Devices.{network, broker, hour_later}

-- The start before: its one query, and five calls of the socket.
abbrev first_answer : Client ℕ ℕ
first_answer = (get_time network ntp_server (Ntpc.new 0)).1

abbrev good_answers : Answers
good_answers = record good_start { last_time_sync = 0; publisher_now = 0; last_publish = 0 }

booted :
    boot any_time (record good_answers { ntp = (get_time network ntp_server (Ntpc.new 0)).0 })
    ≡ (done (start 0 0), full_start good_answers 1700000000)
unfolding boot Boot.new start wait_connected connection connections Wifi.set_up wait_for_link
    get_time resolve Ntpc.exchange Ntpc.new
booted = refl

abbrev awake : Device ℕ ℕ Messages
awake = started queue 0 0 0 first_answer.addr first_answer.world

abbrev second_answer : Client ℕ ℕ
second_answer = (get_time network ntp_server (client first_answer.addr awake)).1

due_again : time_for network awake 4000000000 ≡ (ok 1700000000, second_answer)
unfolding time_for start get_time resolve Ntpc.exchange Ntpc.new
due_again = refl

first_round :
    round any_time unpacker (start 0 0) (round_with hour_later (ok 1700000000))
    ≡ some (
      record (start 0 0) { last_time_sync = 1700000000000000 },
      feed ∷ set_current_time_us 1700000000000000 ∷ feed ∷ [],
    )
unfolding round resync on_received start
first_round = refl

-- A quiet hour, and the round that asks for the time again.
first_hour :
    Steps network queue any_time unpacker clock broker awake
      (heard (round_with hour_later (ok 1700000000)) ∷ [])
      (record awake {
        station = record (start 0 0) { last_time_sync = 1700000000000000 };
        ntpc = second_answer.addr;
        world = second_answer.world;
        calls = second_answer.calls;
      })
first_hour =
    hears network queue any_time unpacker clock broker awake hour_later 1700000000 second_answer
      (record (start 0 0) { last_time_sync = 1700000000000000 })
      (feed ∷ set_current_time_us 1700000000000000 ∷ feed ∷ []) [] here refl due_again first_round
      (nothing_sent [])

powered_up_example :
    (start 0 0 ≡ start 0 0)
    × ((addr : ℕ) × (first_answer.calls ≡ closed_calls addr (dns_query ntp_server ∷ []))
        × (second_answer.addr ≡ some addr)
        × Only broker second_answer.calls)
powered_up_example =
    powered_up network queue any_time unpacker clock broker 0 good_answers booted first_hour
