-- ===== src/Tests/Links.antt =====
-- Examples of the connection task and of the waits.
use esp_rf_ook.Prelude.{◌≡◌, refl, Bool, true, false, Option, none, some, List, [], ◌∷◌, ◌++◌}
use esp_rf_ook.Wifi.{
  Radio, WifiAction, set_config, start, scan, connect, sleep, signal, set_up, connection,
  connections, wait_for_ip,
}
use esp_rf_ook.Wifi.Signal.{
  Signal, IsSignal, Link, waiting, finished, unlinked, takes, sleeps, Links, connects, wakes,
  Connected, LastConnected, Finishes, Links-Finishes,
}
use esp_rf_ook.Wifi.Signal
use esp_rf_ook.Wifi.Address.{no_then_yes, wait_for_ip_lem}

abbrev attempted : Option Bool → Bool → Radio
attempted is_started up = record {
  is_connected = false;
  is_started = is_started;
  set_config = true;
  start = true;
  scan = true;
  connect = up;
}

-- A first round that sets the controller up and fails to connect.
abbrev failing : List Radio
failing = attempted none false ∷ []

abbrev failed_actions : List WifiAction
failed_actions = set_config ∷ start ∷ scan ∷ connect ∷ signal false ∷ sleep 5000 ∷ []

failed_round : connections failing ≡ some failed_actions
unfolding connections connection set_up
failed_round = refl

both_rounds :
    connections (failing ++ attempted (some true) true ∷ [])
    ≡ some (failed_actions ++ (connect ∷ signal true ∷ []))
unfolding connections connection set_up
both_rounds = refl

abbrev unstarted : Radio
unstarted = record {
  is_connected = true;
  is_started = some false;
  set_config = true;
  start = false;
  scan = true;
  connect = true;
}

wait_for_ip_lem_example : wait_for_ip (no_then_yes 2 []) (no_then_yes 3 (false ∷ [])) ≡ some 4000
wait_for_ip_lem_example = wait_for_ip_lem 2 3 [] (false ∷ [])

abbrev retried : Radio
retried = attempted (some true) true

failed_first : connection (attempted none false) ≡ some failed_actions
unfolding connection set_up
failed_first = refl

then_connected : connection retried ≡ some (connect ∷ signal true ∷ [])
unfolding connection set_up
then_connected = refl

-- embassy's signal, as it is documented.
abbrev one_place : Signal (Option Bool)
one_place = record {
  empty = none;
  signal = λ up state. some up;
  take = λ state. elim state [ none ↦ none | some up ↦ some (up, none) ];
}

one_place-IsSignal : IsSignal one_place
one_place-IsSignal = record { take-empty = refl; take-signal = λ up state. refl }

-- The failure is taken, the success comes while the waiter sleeps.
links :
    Links one_place
      (unlinked one_place)
      (retried ∷ attempted none false ∷ [])
      (record { link_state = some true; waiter = waiting })
links =
    wakes
      (connects retried _
        (wakes (connects (attempted none false) _ Signal.start failed_first)
          (takes false none refl refl))
        then_connected)
      (sleeps false refl)

Links-Finishes_example :
    (waiting ≡ finished → Connected (retried ∷ attempted none false ∷ []))
    × (LastConnected (retried ∷ attempted none false ∷ [])
        → Finishes one_place (record { link_state = some true; waiter = waiting }))
Links-Finishes_example = Links-Finishes one_place one_place-IsSignal links
