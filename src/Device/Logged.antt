-- ===== src/Device/Logged.antt =====
-- What goes out over the network: the messages among the calls, and what each call of a client adds.
use esp_rf_ook.Prelude.{
  ℕ, ◌≡◌, refl, ap, ◌∙◌, ◌⊎◌, inl, inr, false, Option, none, some, List, [], ◌∷◌, ◌++◌, Outcome, ok,
  err, panic,
}
use esp_rf_ook.Network.{
  Network, Call, dns_query, connect, connect_to_broker, send_message, disconnect, bind, ask_time,
  flush, wait, close, abort, Client,
}
use esp_rf_ook.Network.Resolve.{asked}
use esp_rf_ook.Ntpc
use esp_rf_ook.Ntpc.{NtpcError, get_time}
use esp_rf_ook.Ntpc.Outcomes.{get_time-Ends}
use esp_rf_ook.Mqtt
use esp_rf_ook.Mqtt.{MqttError, publish}
use esp_rf_ook.Mqtt.Outcomes.{publish-Ends}
use esp_rf_ook.Device.{is_ok}

module _ {Addr : Type 0} where
  -- The topics and texts that are sent to a broker, the latest first.
  abbrev pub messages : List (Call Addr) → List (List ℕ × List ℕ)
  messages [] = []
  messages (send_message topic text ∷ calls) = (topic, text) ∷ messages calls
  messages (dns_query name ∷ calls) = messages calls
  messages (connect addr port ∷ calls) = messages calls
  messages (connect_to_broker ∷ calls) = messages calls
  messages (disconnect ∷ calls) = messages calls
  messages (bind port ∷ calls) = messages calls
  messages (ask_time addr port ∷ calls) = messages calls
  messages (flush ∷ calls) = messages calls
  messages (wait ms ∷ calls) = messages calls
  messages (close ∷ calls) = messages calls
  messages (abort ∷ calls) = messages calls

  pub messages-append :
      (later calls : List (Call Addr))
      → messages (later ++ calls) ≡ messages later ++ messages calls
  messages-append [] calls = refl
  messages-append (send_message topic text ∷ later) calls =
      ap (◌∷◌ (topic, text)) (messages-append later calls)
  messages-append (dns_query name ∷ later) calls = messages-append later calls
  messages-append (connect addr port ∷ later) calls = messages-append later calls
  messages-append (connect_to_broker ∷ later) calls = messages-append later calls
  messages-append (disconnect ∷ later) calls = messages-append later calls
  messages-append (bind port ∷ later) calls = messages-append later calls
  messages-append (ask_time addr port ∷ later) calls = messages-append later calls
  messages-append (flush ∷ later) calls = messages-append later calls
  messages-append (wait ms ∷ later) calls = messages-append later calls
  messages-append (close ∷ later) calls = messages-append later calls
  messages-append (abort ∷ later) calls = messages-append later calls

  messages-asked :
      (addr : Option Addr) (name : List ℕ) (calls : List (Call Addr))
      → messages (asked addr name ++ calls) ≡ messages calls
  messages-asked none name calls = refl
  messages-asked (some a) name calls = refl

-- What a publication adds to the messages before: its own one, if it succeeds; none or that one, if
-- not.
abbrev pub Adds :
    {E A : Type 0}
    → List ℕ × List ℕ
    → Outcome E A
    → List (List ℕ × List ℕ)
    → List (List ℕ × List ℕ)
    → Type 0
Adds m result before after = (after ≡ m ∷ before) ⊎ (is_ok result ≡ false) × (after ≡ before)

module _ {Addr World : Type 0} (n : Network Addr World) (server : List ℕ)
    (c : Client Addr World) where
  get_time-silent :
      (r : Outcome NtpcError ℕ) (c' : Client Addr World)
      → Ntpc.Outcomes.Ends n c server r c'
      → messages c'.calls ≡ messages c.calls
  get_time-silent (ok t) c' (a, (h, _)) = ap messages h ∙ messages-asked c.addr server c.calls
  get_time-silent (err Ntpc.dns_resolve_failed) c' (_, _, h) = ap messages h
  get_time-silent (err Ntpc.socket_bind_failed) c' (a, (h, _)) =
      ap messages h ∙ messages-asked c.addr server c.calls
  get_time-silent (err Ntpc.network_error) c' (a, h) = absurd h
  get_time-silent (err Ntpc.timeout) c' (a, (h, _)) =
      ap messages h ∙ messages-asked c.addr server c.calls
  get_time-silent panic c' (a, h) = absurd h

  publish-Adds :
      (topic text : List ℕ) (r : Outcome MqttError (Unit {0})) (c' : Client Addr World)
      → Mqtt.Outcomes.Ends n topic text c server r c'
      → Adds (topic, text) r (messages c.calls) (messages c'.calls)
  publish-Adds topic text (ok u) c' (a, h, _) =
      inl (ap messages h ∙ ap (◌∷◌ (topic, text)) (messages-asked c.addr server c.calls))
  publish-Adds topic text (err Mqtt.dns_resolve_failed) c' (_, _, h) = inr (refl, ap messages h)
  publish-Adds topic text (err Mqtt.connection_failed) c' (a, inl h, _) =
      inr (refl, ap messages h ∙ messages-asked c.addr server c.calls)
  publish-Adds topic text (err Mqtt.connection_failed) c' (a, inr h, _) =
      inr (refl, ap messages h ∙ messages-asked c.addr server c.calls)
  publish-Adds topic text (err Mqtt.publish_failed) c' (a, h, _) =
      inl (ap messages h ∙ ap (◌∷◌ (topic, text)) (messages-asked c.addr server c.calls))
  publish-Adds topic text (err Mqtt.disconnect_failed) c' (a, h, _) =
      inl (ap messages h ∙ ap (◌∷◌ (topic, text)) (messages-asked c.addr server c.calls))
  publish-Adds topic text (err Mqtt.flush_error) c' (a, h, _) =
      inl (ap messages h ∙ ap (◌∷◌ (topic, text)) (messages-asked c.addr server c.calls))
  publish-Adds topic text panic c' (a, h, _) = absurd h

  -- Asking for the time sends no message.
  pub messages-get_time : messages (get_time n server c).1.calls ≡ messages c.calls
  messages-get_time =
      get_time-silent (get_time n server c).0 (get_time n server c).1 (get_time-Ends n server c)

  -- A publication sends its own message and no other: exactly once if it succeeds, once at most if not.
  pub messages-publish :
      (topic text : List ℕ)
      → let (r, c') = publish n server topic text c in
        Adds (topic, text) r (messages c.calls) (messages c'.calls)
  messages-publish topic text =
      let (r, c') = publish n server topic text c in
      publish-Adds topic text r c' (publish-Ends n topic text server c)
