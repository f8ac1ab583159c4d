-- ===== src/Life/Starts.antt =====
-- A start in which nothing fails reaches its two tasks.
use esp_rf_ook.Prelude.{ℕ, ◌≡◌, refl, ap, ◌∙◌, Bool, true, none, some, List, [], ◌∷◌, ok}
use esp_rf_ook.Sensor.{SensorData, PackedStruct}
use esp_rf_ook.Network.{Network, Call, seconds, bind, dns_query, ask_time}
use esp_rf_ook.Network.Program.{
  Program, or_fail, ends, queries, attempts, requests, resolves, first_of, call_next, call_all,
}
use esp_rf_ook.Ntpc.{NtpcError, dns_resolve_failed, socket_bind_failed, ntp_port}
use esp_rf_ook.Ntpc.Calls.{exchange_calls, replied_calls, time_calls}
use esp_rf_ook.Wifi.{WifiAction, connections}
use esp_rf_ook.Station.{start}
use esp_rf_ook.Boot.{Answers, done, wait_connected, new, join_network, set_up}
use esp_rf_ook.Publisher.{Jiff}
use esp_rf_ook.Channel.{Channel}
use esp_rf_ook.System.{Event}
use esp_rf_ook.Device.{ntp_server}
use esp_rf_ook.Device.Accepting.{Accepts}
use esp_rf_ook.Shared.{Mutex, shared_started}
use esp_rf_ook.Life.{
  Phase, asking, running, world_of, calls_of, joins, awaits, starts, Lives, next, resets,
}

-- The radio, the receiver and the publisher start, a connection succeeds, no round of the connection task
-- panics, an address comes in time, and the time that is shown is a timestamp.
pub record IsGood (is_timestamp : ℕ → Bool) (a : Answers) : Type 0 where
  pub radio_init : a.radio_init ≡ true
  pub wifi_controller : a.wifi_controller ≡ true
  pub connecting : wait_connected a.connecting ≡ done tt
  pub addressed : List WifiAction
  pub addressing : connections a.addressing ≡ some addressed
  pub time_asked : List WifiAction
  pub time_asking : connections a.time_asking ≡ some time_asked
  pub got_ip : a.got_ip ≡ true
  pub shown : is_timestamp a.shown ≡ true
  pub rmt : a.rmt ≡ true
  pub rx_channel : a.rx_channel ≡ true
  pub publisher_spawned : a.publisher_spawned ≡ true

module _ (is_timestamp : ℕ → Bool) (a : Answers) (good : IsGood is_timestamp a) where
  joined : (join_network a).0 ≡ done tt
  unfolding join_network new
  joined =
      rw (good.radio_init, good.wifi_controller, good.connecting, good.addressing, good.got_ip) refl

  set :
      (time : ℕ)
      → (set_up is_timestamp (record a { ntp = ok time })).0
        ≡ done (start a.last_time_sync a.last_publish)
  unfolding set_up
  set time =
      rw (good.time_asking, good.shown, good.rmt, good.rx_channel, good.publisher_spawned) refl

-- The time server answers before the five-second timer.
abbrev pub TellsTime : {Addr World : Type 0} → Network Addr World → Type 0
TellsTime {Addr} {World} n =
    (addr : Addr) (port : ℕ) (world : World) → (t : ℕ) × ((n.request addr port world).0 ≡ seconds t)

module _ {Addr World : Type 0} (n : Network Addr World) (accepts : Accepts n)
    (tells : TellsTime n) where
  exchange_told :
      (a : Addr) (world : World) (made : List (Call Addr))
      → (t : ℕ) × ((call_all n (exchange_calls a) world made).0 ≡ ok t)
  unfolding call_all exchange_calls replied_calls
  exchange_told a world made =
      let bound = accepts.attempt (bind ntp_port) world in
      let (t, told) = tells a ntp_port (n.attempt (bind ntp_port) world).1 in
      (
        t,
        ap
              (λ done.
                (call_all n
                  (or_fail socket_bind_failed (requests a ntp_port (replied_calls a)) done)
                  (n.attempt (bind ntp_port) world).1 (bind ntp_port ∷ made)).0)
              bound
            ∙ ap
                (λ reply.
                  (call_all n (replied_calls a reply)
                    (n.request a ntp_port (n.attempt (bind ntp_port) world).1).1
                    (ask_time a ntp_port ∷ bind ntp_port ∷ made)).0)
                told,
      )

  time_told :
      (server : List ℕ) (world : World) (made : List (Call Addr))
      → (t : ℕ) × ((call_all n (time_calls server none) world made).0 ≡ ok t)
  unfolding call_all time_calls resolves first_of
  time_told server world made =
      let (a, others, answer) = accepts.query server world in
      let (t, told) = exchange_told a (n.query server world).1 (dns_query server ∷ made) in
      (
        t,
        ap
              (λ reply.
                (call_all n (first_of dns_resolve_failed exchange_calls reply)
                  (n.query server world).1 (dns_query server ∷ made)).0)
              answer
            ∙ told,
      )

module _ {Addr World C L : Type 0} (n : Network Addr World) (q : Channel (SensorData × ℕ) C)
    (x : Mutex L) (is_timestamp : ℕ → Bool) (p : PackedStruct) (jiff : Jiff) (mqtt_server : List ℕ)
    (world : World) where
  module _ {es : List Event} {earlier : List (List Event)} {past : List (List (Call Addr))} where
    -- The calls that are left can be made.
    awaits_all :
        (a : Answers) (rest : Program Addr NtpcError ℕ) (w : World) (made : List (Call Addr))
        → Lives n q x is_timestamp p jiff mqtt_server world
            (es ∷ earlier)
            past
            (asking a rest w made)
        → (let (r, c) = call_all n rest w made in
            Lives n q x is_timestamp p jiff mqtt_server world
              (es ∷ earlier)
              past
              (asking a (ends r c.addr) c.world c.calls))
    unfolding call_all call_next
    awaits_all a (ends r addr) w made lives = lives
    awaits_all a (queries name go) w made lives =
        awaits_all a (go (n.query name w).0) _ _
          (next _ lives (awaits a (queries name go) _ w _ made _ refl))
    awaits_all a (attempts call go) w made lives =
        awaits_all a (go (n.attempt call w).0) _ _
          (next _ lives (awaits a (attempts call go) _ w _ made _ refl))
    awaits_all a (requests addr port go) w made lives =
        awaits_all a (go (n.request addr port w).0) _ _
          (next _ lives (awaits a (requests addr port go) _ w _ made _ refl))

  -- A reset, and a good start.
  pub starts_again :
      {hs : List (List Event)} {past : List (List (Call Addr))} {s : Phase Addr World C L}
      (a : Answers)
      → IsGood is_timestamp a
      → Accepts n
      → TellsTime n
      → Lives n q x is_timestamp p jiff mqtt_server world hs past s
      → (let c = (call_all n (time_calls ntp_server none) (world_of s) []).1 in
          Lives n q x is_timestamp p jiff mqtt_server world ([] ∷ hs) (calls_of s ∷ past) (
            running
              (shared_started q x a.last_time_sync a.last_publish a.publisher_now c.addr c.world)
              c.calls))
  starts_again {s = s} a good accepts tells lives =
      let (t, told) = time_told n accepts tells ntp_server (world_of s) [] in
      next _
        (awaits_all a _ _ _
          (next _ (resets lives) (joins a (world_of s) (joined is_timestamp a good))))
        (starts a _ _ _ _ (start a.last_time_sync a.last_publish) (
          ap (λ r. (set_up is_timestamp (record a { ntp = r })).0) told
          ∙ set is_timestamp a good t))
