-- ===== src/Tests/Clients.antt =====
-- Examples of the two clients, against networks that answer in a fixed way.
use esp_rf_ook.Mqtt.Retry.{publish_again}
use esp_rf_ook.Prelude.{ℕ, ◌+◌, ◌≡◌, refl, Bool, true, false, none, some, [], ◌∷◌, err, List, ◌++◌}
use esp_rf_ook.Text.{codes}
use esp_rf_ook.Mqtt
use esp_rf_ook.Ntpc
use esp_rf_ook.Network.{
  Network, Call, send_message, TimeReply, seconds, timed_out, Client, resolve, dns_query,
}
use esp_rf_ook.Ntpc.{
  NtpcError, Timestamp, timeout, timestamp_sec, timestamp_subsec_micros, get_time,
}
use esp_rf_ook.Ntpc.Answered.{get_time-Answered}
use esp_rf_ook.Mqtt.{publish, publish_failed, exchange}
use esp_rf_ook.Mqtt.Answered.{publish-Answered}

-- Every call succeeds but the message; the world counts the calls.
abbrev accepts : Call ℕ → Bool
accepts (send_message topic text) = false
accepts _ = true

abbrev network : TimeReply → Network ℕ ℕ
network reply = record {
  query = λ name world. (some (99 ∷ []), world + 1);
  attempt = λ call world. (accepts call, world + 1);
  request = λ addr port world. (reply, world + 1);
}

abbrev fresh : Client ℕ ℕ
fresh = record { addr = none; world = 0; calls = [] }

abbrev cached : Client ℕ ℕ
cached = record { addr = some 99; world = 0; calls = [] }

publish-Answered_example :
    let (r, c') =
      publish (network timed_out) (codes "broker") (codes "sensors/x") (codes "{}") fresh in
    Mqtt.Answered.Answered
      (network timed_out)
      (codes "broker")
      (codes "sensors/x")
      (codes "{}")
      fresh
      r
      c'
publish-Answered_example =
    publish-Answered (network timed_out) (codes "broker") (codes "sensors/x") (codes "{}") fresh

get_time-Answered_example :
    let (r, c') = get_time (network (seconds 1700000000)) (codes "pool.ntp.org") fresh in
    Ntpc.Answered.Answered (network (seconds 1700000000)) (codes "pool.ntp.org") fresh r c'
get_time-Answered_example =
    get_time-Answered (network (seconds 1700000000)) (codes "pool.ntp.org") fresh

first_fails :
    (publish (network timed_out) (codes "broker") (codes "sensors/x") (codes "{}") fresh).0
    ≡ err publish_failed
unfolding publish resolve exchange
first_fails = refl

publish_again_example :
    let (r, c') =
      publish (network timed_out) (codes "broker") (codes "sensors/x") (codes "{}") fresh in
    let (r', c'') =
      publish (network timed_out) (codes "broker") (codes "sensors/x") (codes "{}") c' in
    (later : List (Call ℕ)) × (c''.calls ≡ later ++ dns_query (codes "broker") ∷ c'.calls)
publish_again_example =
    publish_again (network timed_out) (codes "sensors/x") (codes "{}") (codes "broker") fresh
      publish_failed first_fails
