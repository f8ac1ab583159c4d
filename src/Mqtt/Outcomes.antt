-- ===== src/Mqtt/Outcomes.antt =====
-- The calls of `publish`, by its result.
use mathlib.Core.Path.{subst}
use esp_rf_ook.Prelude.{
  ℕ, ◌≡◌, sym, ap, ◌∙◌, ◌⊎◌, inl, inr, Option, none, some, List, ◌∷◌, ◌++◌, arith, Outcome, ok, err,
  panic,
}
use esp_rf_ook.Network.{
  Network, Call, dns_query, connect, connect_to_broker, send_message, disconnect, flush, wait,
  close, abort, Client, ◌>>=◌, after, unwrap_addr, resolve,
}
use esp_rf_ook.Network.Resolve.{asked, Resolved, resolve_cases}
use esp_rf_ook.Mqtt.{
  MqttError, dns_resolve_failed, connection_failed, publish_failed, disconnect_failed, flush_error,
  mqtt_port, exchange, publish,
}

module _ {Addr : Type 0} (topic text : List ℕ) where
  -- The calls up to the message, the latest first.
  abbrev pub sent_calls : Addr → List (Call Addr) → List (Call Addr)
  sent_calls a before = send_message topic text ∷ connect_to_broker ∷ connect a mqtt_port ∷ before

  -- All calls of an exchange, and those of one that ends in the error.
  abbrev pub Calls :
      Addr → List (Call Addr) → Outcome MqttError (Unit {0}) → List (Call Addr) → Type 0
  Calls a before (ok _) calls =
      calls ≡ abort ∷ wait 100 ∷ close ∷ wait 100 ∷ flush ∷ disconnect ∷ sent_calls a before
  Calls a before (err dns_resolve_failed) calls = ⊥
  Calls a before (err connection_failed) calls =
      (calls ≡ connect a mqtt_port ∷ before)
      ⊎ (calls ≡ connect_to_broker ∷ connect a mqtt_port ∷ before)
  Calls a before (err publish_failed) calls = calls ≡ sent_calls a before
  Calls a before (err disconnect_failed) calls = calls ≡ disconnect ∷ sent_calls a before
  Calls a before (err flush_error) calls = calls ≡ flush ∷ disconnect ∷ sent_calls a before
  Calls a before panic calls = ⊥

  -- The address stays cached exactly where the exchange succeeds.
  abbrev pub Cached : Addr → Outcome MqttError (Unit {0}) → Option Addr → Type 0
  Cached a (ok _) addr = addr ≡ some a
  Cached a (err _) addr = addr ≡ none
  Cached a panic addr = ⊥

module _ {Addr World : Type 0} (n : Network Addr World) (topic text : List ℕ) where
  exchange_ends :
      (a : Addr) (c : Client Addr World)
      → c.addr ≡ some a
      → let (r, c') = exchange n a topic text c in
        Calls topic text a c.calls r c'.calls × Cached topic text a r c'.addr
  unfolding exchange
  exchange_ends a c h = ground arith

  -- How `publish` ends, for a result and the client behind it.
  abbrev pub Ends :
      Client Addr World → List ℕ → Outcome MqttError (Unit {0}) → Client Addr World → Type 0
  Ends c server (err dns_resolve_failed) c' =
      (c.addr ≡ none) × (c'.addr ≡ none) × (c'.calls ≡ dns_query server ∷ c.calls)
  Ends c server r c' =
      (a : Addr) × Calls topic text a (asked c.addr server ++ c.calls) r c'.calls
      × Cached topic text a r c'.addr

  Ends_of_exchange :
      (c : Client Addr World) (server : List ℕ) (a : Addr) (r : Outcome MqttError (Unit {0}))
      (c' : Client Addr World)
      → Calls topic text a (asked c.addr server ++ c.calls) r c'.calls
      → Cached topic text a r c'.addr
      → Ends c server r c'
  Ends_of_exchange c server a (ok u) c' h k = (a, h, k)
  Ends_of_exchange c server a (err dns_resolve_failed) c' h k = absurd h
  Ends_of_exchange c server a (err connection_failed) c' h k = (a, h, k)
  Ends_of_exchange c server a (err publish_failed) c' h k = (a, h, k)
  Ends_of_exchange c server a (err disconnect_failed) c' h k = (a, h, k)
  Ends_of_exchange c server a (err flush_error) c' h k = (a, h, k)
  Ends_of_exchange c server a panic c' h k = absurd h

  abbrev pub finish :
      Outcome MqttError (Unit {0}) × Client Addr World
      → Outcome MqttError (Unit {0}) × Client Addr World
  finish q = after q (λ _. unwrap_addr >>= λ a. exchange n a topic text)

  pub with_address :
      (c : Client Addr World) (a : Addr)
      → c.addr ≡ some a
      → finish (ok tt, c) ≡ exchange n a topic text c
  with_address c a h = ground arith

  of_address :
      (c c' : Client Addr World) (server : List ℕ) (a : Addr)
      → c'.addr ≡ some a
      → c'.calls ≡ asked c.addr server ++ c.calls
      → let (r, c'') = finish (ok tt, c') in Ends c server r c''
  of_address c c' server a h k =
      let (calls, cached) = exchange_ends a c' h in
      let ended =
        Ends_of_exchange c server a (exchange n a topic text c').0 (exchange n a topic text c').1
          (subst
            (λ l.
              Calls topic text a l (exchange n a topic text c').0
                (exchange n a topic text c').1.calls)
            k calls)
          cached in
      subst (λ x. Ends c server x.0 x.1) (sym (with_address c' a h)) ended

  finish_ends :
      (c : Client Addr World) (server : List ℕ)
      (q : Outcome MqttError (Unit {0}) × Client Addr World)
      → Resolved n server dns_resolve_failed c q
      → Ends c server (finish q).0 (finish q).1
  finish_ends c server (ok u, c') (inl (a, _, h, k)) = of_address c c' server a h k
  finish_ends c server (ok u, c') (inr (e, _, _, _)) = cc
  finish_ends c server (err x, c') (inl (a, e, _, _)) = cc
  finish_ends c server (err dns_resolve_failed, c') (inr (_, h, h', k)) =
      (h, h', k ∙ ap (λ o. asked o server ++ c.calls) h)
  finish_ends c server (err connection_failed, c') (inr (e, _, _, _)) = cc
  finish_ends c server (err publish_failed, c') (inr (e, _, _, _)) = cc
  finish_ends c server (err disconnect_failed, c') (inr (e, _, _, _)) = cc
  finish_ends c server (err flush_error, c') (inr (e, _, _, _)) = cc
  finish_ends c server (panic, c') (inl (a, e, _, _)) = cc
  finish_ends c server (panic, c') (inr (e, _, _, _)) = cc

  -- The calls that `publish` has made and the address that it keeps, by its result alone.
  pub publish-Ends :
      (server : List ℕ) (c : Client Addr World)
      → let (r, c') = publish n server topic text c in Ends c server r c'
  unfolding publish
  publish-Ends server c =
      finish_ends c server (resolve n server dns_resolve_failed c)
        (resolve_cases n server dns_resolve_failed c)
