-- ===== src/Wifi/Link.antt =====
-- What the connection task tells, and when `Wifi::new` goes on.
use mathlib.Core.Option.{some-injective}
use esp_rf_ook.Prelude.{
  ◌+◌, ◌≡◌, ◌↔◌, refl, sym, ap, ◌∙◌, ◌⊎◌, Bool, true, false, none, some, List, [], ◌∷◌, ◌++◌, map,
  arith, All, length,
}
use esp_rf_ook.Prelude.Options.{>>=-eq-some}
use esp_rf_ook.Wifi.{
  Radio, WifiAction, wait_for_disconnect, set_config, start, scan, connect, sleep, signal,
  is_running, set_up, connection, connections, wait_for_link,
}

-- The values that are signalled.
abbrev pub signals : List WifiAction → List Bool
signals [] = []
signals (signal up ∷ acts) = up ∷ signals acts
signals (wait_for_disconnect ∷ acts) = signals acts
signals (set_config ∷ acts) = signals acts
signals (start ∷ acts) = signals acts
signals (scan ∷ acts) = signals acts
signals (connect ∷ acts) = signals acts
signals (sleep ms ∷ acts) = signals acts

signals-append : (xs ys : List WifiAction) → signals (xs ++ ys) ≡ signals xs ++ signals ys
signals-append [] ys = refl
signals-append (signal up ∷ xs) ys = ap (◌∷◌ up) (signals-append xs ys)
signals-append (wait_for_disconnect ∷ xs) ys = signals-append xs ys
signals-append (set_config ∷ xs) ys = signals-append xs ys
signals-append (start ∷ xs) ys = signals-append xs ys
signals-append (scan ∷ xs) ys = signals-append xs ys
signals-append (connect ∷ xs) ys = signals-append xs ys
signals-append (sleep ms ∷ xs) ys = signals-append xs ys

pub signals-connection :
    (r : Radio) {acts : List WifiAction} → connection r ≡ some acts → signals acts ≡ r.connect ∷ []
unfolding connection set_up
signals-connection r h = ground arith

signals-connections :
    (rs : List Radio) {acts : List WifiAction}
    → connections rs ≡ some acts
    → signals acts ≡ map (λ r. r.connect) rs
unfolding connections
signals-connections [] h = sym (ap signals (some-injective _ _ h))
signals-connections (r ∷ rs) {acts} h =
    let (now, e, h') = >>=-eq-some (connection r) _ h in
    let (later, e', h'') = >>=-eq-some (connections rs) _ h' in
    sym (ap signals (some-injective _ _ h''))
    ∙ signals-append now later
    ∙ rw (signals-connection r e) (ap (◌∷◌ r.connect) (signals-connections rs e'))

wait_for_link-downs :
    (downs : List Radio)
    → All (λ r. r.connect ≡ false) downs
    → wait_for_link (map (λ r. r.connect) downs) ≡ none
unfolding wait_for_link
wait_for_link-downs [] h = refl
wait_for_link-downs (r ∷ rs) (down, h) = rw (down, wait_for_link-downs rs h)

wait_for_link-up :
    (downs : List Radio) (r : Radio) (rs : List Radio)
    → All (λ r. r.connect ≡ false) downs
    → r.connect ≡ true
    → wait_for_link (map (λ r. r.connect) (downs ++ r ∷ rs)) ≡ some (length downs + 1)
unfolding wait_for_link
wait_for_link-up [] r rs h up = rw up
wait_for_link-up (d ∷ ds) r rs (down, h) up =
    rw (down, wait_for_link-up ds r rs h up) (ground arith)

-- `Wifi::new`, if it takes every value that the connection task signals, goes on with the first
-- connection that succeeds, after one value for each failure before it.
pub link_comes_up :
    (downs : List Radio) (r : Radio) (rs : List Radio) {acts : List WifiAction}
    → All (λ r. r.connect ≡ false) downs
    → r.connect ≡ true
    → connections (downs ++ r ∷ rs) ≡ some acts
    → wait_for_link (signals acts) ≡ some (length downs + 1)
link_comes_up downs r rs h up e =
    ap wait_for_link (signals-connections (downs ++ r ∷ rs) e) ∙ wait_for_link-up downs r rs h up

-- While no connection succeeds it waits.
pub link_stays_down :
    (downs : List Radio) {acts : List WifiAction}
    → All (λ r. r.connect ≡ false) downs
    → connections downs ≡ some acts
    → wait_for_link (signals acts) ≡ none
link_stays_down downs h e =
    ap wait_for_link (signals-connections downs e) ∙ wait_for_link-downs downs h

-- A round of the connection task panics exactly where the controller is not known to be started and
-- its configuration, its start or the scan fails; a connection that fails is no panic.
pub connection_panics :
    (r : Radio)
    → (connection r ≡ none) ↔ (
        (is_running r.is_started ≡ false)
        × ((r.set_config ≡ false) ⊎ (r.start ≡ false) ⊎ (r.scan ≡ false)))
unfolding connection set_up
connection_panics r = ground arith
