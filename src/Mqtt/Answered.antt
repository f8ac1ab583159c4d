-- ===== src/Mqtt/Answered.antt =====
-- What `publish` returns, does and keeps, by the network's answers.
use esp_rf_ook.Prelude.{ℕ, ◌≡◌, refl, ◌⊎◌, inl, inr, List, [], ◌∷◌, Outcome, ok, err, panic}
use esp_rf_ook.Network.{
  Network, connect, connect_to_broker, send_message, disconnect, flush, wait, close, abort, Client,
}
use esp_rf_ook.Network.Answered.{
  called, through, Accepted, RefusedAt, Found, NotFound, attempt_or_lem, resolve_lem,
}
use esp_rf_ook.Mqtt.{
  MqttError, dns_resolve_failed, connection_failed, publish_failed, disconnect_failed, flush_error,
  mqtt_port, exchange, publish,
}

module _ {Addr World : Type 0} (n : Network Addr World) (server topic text : List ℕ) where
  -- How the calls after the look-up end.
  abbrev pub Exchanged :
      Addr → Client Addr World → Outcome MqttError (Unit {0}) → Client Addr World → Type 0
  Exchanged a c (ok _) c' =
      (c₁ : Client Addr World) × Accepted n
        (connect a mqtt_port
          ∷ connect_to_broker
          ∷ send_message topic text
          ∷ disconnect
          ∷ flush
          ∷ [])
        c c₁
      × (c' ≡ through n (wait 100 ∷ close ∷ wait 100 ∷ abort ∷ []) c₁)
  Exchanged a c (err dns_resolve_failed) c' = ⊥
  Exchanged a c (err connection_failed) c' =
      RefusedAt n [] (connect a mqtt_port) c c'
      ⊎ RefusedAt n (connect a mqtt_port ∷ []) connect_to_broker c c'
  Exchanged a c (err publish_failed) c' =
      RefusedAt n (connect a mqtt_port ∷ connect_to_broker ∷ []) (send_message topic text) c c'
  Exchanged a c (err disconnect_failed) c' =
      RefusedAt n (connect a mqtt_port ∷ connect_to_broker ∷ send_message topic text ∷ [])
        disconnect c c'
  Exchanged a c (err flush_error) c' =
      RefusedAt n
        (connect a mqtt_port ∷ connect_to_broker ∷ send_message topic text ∷ disconnect ∷ []) flush
        c c'
  Exchanged a c panic c' = ⊥

  -- How `publish` ends.
  abbrev pub Answered :
      Client Addr World → Outcome MqttError (Unit {0}) → Client Addr World → Type 0
  Answered c (err dns_resolve_failed) c' = NotFound n server c c'
  Answered c r c' =
      (a : Addr) × (c₀ : Client Addr World) × Found n server c a c₀ × Exchanged a c₀ r c'

  exchange-Exchanged :
      (a : Addr) (c : Client Addr World)
      → let (r, c') = exchange n a topic text c in Exchanged a c r c'
  unfolding exchange
  exchange-Exchanged a c =
      let Q : Outcome MqttError (Unit {0}) × Client Addr World → Type 0 =
        λ x. Exchanged a c x.0 x.1 in
      let conn = connect a mqtt_port in
      let send = send_message topic text in
      attempt_or_lem n Q conn connection_failed _ c
        (λ w₁ h₁.
          let c₁ = called conn w₁ c in
          attempt_or_lem n Q connect_to_broker connection_failed _ c₁
            (λ w₂ h₂.
              let c₂ = called connect_to_broker w₂ c₁ in
              attempt_or_lem n Q send publish_failed _ c₂
                (λ w₃ h₃.
                  let c₃ = called send w₃ c₂ in
                  attempt_or_lem n Q disconnect disconnect_failed _ c₃
                    (λ w₄ h₄.
                      attempt_or_lem n Q flush flush_error _ (called disconnect w₄ c₃)
                        (λ w₅ h₅. (_, (w₁, h₁, (w₂, h₂, (w₃, h₃, (w₄, h₄, (w₅, h₅, refl))))), refl))
                        (λ w₅ h₅. (w₁, h₁, (w₂, h₂, (w₃, h₃, (w₄, h₄, (w₅, h₅, refl)))))))
                    (λ w₄ h₄. (w₁, h₁, (w₂, h₂, (w₃, h₃, (w₄, h₄, refl))))))
                (λ w₃ h₃. (w₁, h₁, (w₂, h₂, (w₃, h₃, refl)))))
            (λ w₂ h₂. inr (w₁, h₁, (w₂, h₂, refl))))
        (λ w₁ h₁. inl (w₁, h₁, refl))

  Found-Answered :
      (a : Addr) (c c₀ : Client Addr World) (r : Outcome MqttError (Unit {0}))
      (c' : Client Addr World)
      → Found n server c a c₀
      → Exchanged a c₀ r c'
      → Answered c r c'
  Found-Answered a c c₀ (ok u) c' f h = (a, c₀, f, h)
  Found-Answered a c c₀ (err dns_resolve_failed) c' f h = absurd h
  Found-Answered a c c₀ (err connection_failed) c' f h = (a, c₀, f, h)
  Found-Answered a c c₀ (err publish_failed) c' f h = (a, c₀, f, h)
  Found-Answered a c c₀ (err disconnect_failed) c' f h = (a, c₀, f, h)
  Found-Answered a c c₀ (err flush_error) c' f h = (a, c₀, f, h)
  Found-Answered a c c₀ panic c' f h = absurd h

  -- Every way that `publish` can end, by the network's answers. It never panics. It looks the server up
  -- only if no address is cached; where the look-up fails or brings none, nothing else is called.
  -- It succeeds exactly behind the five calls that connect, introduce the client, send the message once,
  -- disconnect and flush, in this order and each accepted; then it waits, closes, waits and aborts,
  -- whatever the answers, and the address stays cached. Each error is that of the call that the network
  -- refused, after all calls before it were accepted; no call follows it, and no address is left.
  pub publish-Answered :
      (c : Client Addr World) → let (r, c') = publish n server topic text c in Answered c r c'
  unfolding publish
  publish-Answered c =
      resolve_lem n (λ x. Answered c x.0 x.1) server dns_resolve_failed
        (λ a. exchange n a topic text) c
        (λ a c₀ f. Found-Answered a c c₀ _ _ f (exchange-Exchanged a c₀)) (λ c' h. h)
