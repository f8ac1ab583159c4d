-- ===== src/Mqtt/Retry.antt =====
-- What the next `publish` does after one that failed.
use mathlib.Core.Path.{subst}
use esp_rf_ook.Prelude.{
  ℕ, ◌≡◌, sym, ap, ◌∙◌, inl, inr, none, some, List, [], ◌∷◌, ◌++◌, Outcome, ok, err, panic,
}
use esp_rf_ook.Network.{
  Network, Call, dns_query, Client, connect, connect_to_broker, disconnect, flush, wait, close,
  abort,
}
use esp_rf_ook.Network.Resolve.{asked}
use esp_rf_ook.Mqtt.{
  MqttError, dns_resolve_failed, connection_failed, publish_failed, disconnect_failed, flush_error,
  publish, mqtt_port,
}
use esp_rf_ook.Mqtt.Outcomes.{Ends, publish-Ends, sent_calls}

module _ {Addr World : Type 0} (n : Network Addr World) (topic text : List ℕ)
    (server : List ℕ) where
  -- What is cached behind a result.
  abbrev pub Remembers : Outcome MqttError (Unit {0}) → Client Addr World → Type 0
  Remembers (ok _) c' = (a : Addr) × (c'.addr ≡ some a)
  Remembers (err _) c' = c'.addr ≡ none
  Remembers panic c' = ⊥

  Ends-Remembers :
      (c : Client Addr World) (r : Outcome MqttError (Unit {0})) (c' : Client Addr World)
      → Ends n topic text c server r c'
      → Remembers r c'
  Ends-Remembers c (ok u) c' (a, _, h) = (a, h)
  Ends-Remembers c (err dns_resolve_failed) c' (_, h, _) = h
  Ends-Remembers c (err connection_failed) c' (a, _, h) = h
  Ends-Remembers c (err publish_failed) c' (a, _, h) = h
  Ends-Remembers c (err disconnect_failed) c' (a, _, h) = h
  Ends-Remembers c (err flush_error) c' (a, _, h) = h
  Ends-Remembers c panic c' (a, h, _) = h

  -- The calls of an exchange come after the look-up, if it is made, and after the calls before.
  Ends-asked :
      (c : Client Addr World) (r : Outcome MqttError (Unit {0})) (c' : Client Addr World)
      → Ends n topic text c server r c'
      → (later : List (Call Addr)) × (c'.calls ≡ later ++ (asked c.addr server ++ c.calls))
  Ends-asked c (ok u) c' (a, h, _) =
      (abort ∷ wait 100 ∷ close ∷ wait 100 ∷ flush ∷ disconnect ∷ sent_calls topic text a [], h)
  Ends-asked c (err dns_resolve_failed) c' (none_cached, _, h) =
      ([], h ∙ ap (λ o. asked o server ++ c.calls) (sym none_cached))
  Ends-asked c (err connection_failed) c' (a, inl h, _) = (connect a mqtt_port ∷ [], h)
  Ends-asked c (err connection_failed) c' (a, inr h, _) =
      (connect_to_broker ∷ connect a mqtt_port ∷ [], h)
  Ends-asked c (err publish_failed) c' (a, h, _) = (sent_calls topic text a [], h)
  Ends-asked c (err disconnect_failed) c' (a, h, _) = (disconnect ∷ sent_calls topic text a [], h)
  Ends-asked c (err flush_error) c' (a, h, _) = (flush ∷ disconnect ∷ sent_calls topic text a [], h)
  Ends-asked c panic c' (a, h, _) = absurd h

  -- After a `publish` that failed, whatever the error, the next one begins with a look-up of the
  -- server: a broker that has moved is found again.
  pub publish_again :
      (c : Client Addr World) (e : MqttError)
      → (publish n server topic text c).0 ≡ err e
      → let (r, c') = publish n server topic text c in
        let (r', c'') = publish n server topic text c' in
        (later : List (Call Addr)) × (c''.calls ≡ later ++ dns_query server ∷ c'.calls)
  publish_again c e failed =
      let (r, c') = publish n server topic text c in
      let forgotten : Remembers (err e) c' =
        subst (λ x. Remembers x c') failed
          (Ends-Remembers c r c' (publish-Ends n topic text server c)) in
      let (r', c'') = publish n server topic text c' in
      let (later, h) = Ends-asked c' r' c'' (publish-Ends n topic text server c') in
      (later, h ∙ ap (λ o. later ++ (asked o server ++ c'.calls)) forgotten)
