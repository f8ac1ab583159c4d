-- ===== src/Shared/Logged.antt =====
-- The messages among the single calls are those of the deliveries, and of the turn that is not at its end.
use mathlib.Core.List.{append_assoc, append_cancel_right, tail}
use esp_rf_ook.Prelude.{
  ℕ, ◌≡◌, refl, sym, ap, ◌∙◌, ◌⊎◌, inl, inr, Bool, Option, List, [], ◌∷◌, ◌++◌, panic,
}
use esp_rf_ook.Sensor.{SensorData, PackedStruct}
use esp_rf_ook.Network.{Network, Call}
use esp_rf_ook.Network.Program.{Program, call_all, call_all-calls}
use esp_rf_ook.Publisher.{Jiff, Delivery, post}
use esp_rf_ook.Channel.{Channel}
use esp_rf_ook.System.{Event}
use esp_rf_ook.Device
use esp_rf_ook.Device.{Device, started, delivery_with}
use esp_rf_ook.Device.Logged.{messages, messages-append}
use esp_rf_ook.Device.Messages.{
  content, Logged, Steps-Logged, messages-time_for, messages-publish_message,
}
use esp_rf_ook.Shared.{Mutex, IsMutex, Shared, shared_started, Steps}
use esp_rf_ook.Shared.Atomic.{Atomic, free, asking, publishing}
use esp_rf_ook.Shared.Runs.{Steps-Atomic}

-- The messages of the deliveries, and at most one more, of a delivery that is not noted.
abbrev pub IsLogged : Jiff → List Event → List (List ℕ × List ℕ) → Type 0
IsLogged jiff es all =
    (sent : List (List ℕ × List ℕ)) × Logged es sent
    × ((all ≡ sent) ⊎ ((d : Delivery) × (all ≡ content (post jiff d) ∷ sent)))

last_of_none : {A : Type 0} (xs ys : List A) → xs ++ ys ≡ [] → ys ≡ []
last_of_none [] ys e = e
last_of_none (x ∷ xs) ys e = cc e

last_of_one : {A : Type 0} (xs ys : List A) (a : A) → xs ++ ys ≡ a ∷ [] → (ys ≡ []) ⊎ (ys ≡ a ∷ [])
last_of_one [] ys a e = inr e
last_of_one (x ∷ xs) ys a e = inl (last_of_none xs ys (ap tail e))

-- A program between two of its calls: what it has sent is the end of what it will have sent.
module _ {Addr World E A : Type 0} (n : Network Addr World) (rest : Program Addr E A)
    (world : World) (made before : List (Call Addr)) where
  so_far :
      (new : List (List ℕ × List ℕ))
      → messages (call_all n rest world (made ++ before)).1.calls ≡ new ++ messages before
      → (later : List (List ℕ × List ℕ)) × (later ++ messages made ≡ new)
  so_far new e =
      let (later, e') = call_all-calls n rest world (made ++ before) in
      (
        messages later,
        append_cancel_right _ new (messages before) (
            append_assoc (messages later) (messages made) (messages before)
            ∙ ap (λ l. messages later ++ l) (sym (messages-append made before))
            ∙ sym (messages-append later (made ++ before))
            ∙ ap messages (sym e')
            ∙ e),
      )

module _ {Addr World C L : Type 0} (n : Network Addr World) (q : Channel (SensorData × ℕ) C)
    (x : Mutex L) (law : IsMutex x) (is_timestamp : ℕ → Bool) (p : PackedStruct) (jiff : Jiff)
    (mqtt_server : List ℕ) (last_time_sync last_publish publisher_now : ℕ) (ntpc : Option Addr)
    (world : World) where
  -- What the calls of one program add, if they add `new` in the end.
  midway :
      {E A : Type 0} (rest : Program Addr E A) (f : Shared Addr World C L)
      (made before : List (Call Addr)) (new : List (List ℕ × List ℕ))
      → f.device.calls ≡ made ++ before
      → messages (call_all n rest f.device.world f.device.calls).1.calls ≡ new ++ messages before
      → (later : List (List ℕ × List ℕ)) × (later ++ messages made ≡ new)
        × (messages f.device.calls ≡ messages made ++ messages before)
  midway rest f made before new grown e =
      let (later, e') =
        so_far n rest f.device.world made before new
          (ap (λ l. messages (call_all n rest f.device.world l).1.calls) (sym grown) ∙ e) in
      (later, e', ap messages grown ∙ messages-append made before)

  -- A program that sends one message or none has sent that one or none so far.
  one_or_none :
      {E A : Type 0} (rest : Program Addr E A) (f : Shared Addr World C L)
      (made before : List (Call Addr)) (m : List ℕ × List ℕ)
      → f.device.calls ≡ made ++ before
      → let sent = messages (call_all n rest f.device.world f.device.calls).1.calls in
        (sent ≡ m ∷ messages before) ⊎ (sent ≡ messages before)
        → (messages f.device.calls ≡ messages before)
          ⊎ (messages f.device.calls ≡ m ∷ messages before)
  one_or_none rest f made before m grown (inl one) =
      let (later, split, e) = midway rest f made before (m ∷ []) grown one in
      elim (last_of_one later (messages made) m split) [
        | inl none_yet ↦ inl (e ∙ ap (λ l. l ++ messages before) none_yet)
        | inr sent ↦ inr (e ∙ ap (λ l. l ++ messages before) sent)
      ]
  one_or_none rest f made before m grown (inr nothing) =
      let (later, split, e) = midway rest f made before [] grown nothing in
      inl (e ∙ ap (λ l. l ++ messages before) (last_of_none later (messages made) split))

  log :
      {es : List Event} {d : Device Addr World C}
      → Device.Steps n q is_timestamp p jiff mqtt_server
          (started q last_time_sync last_publish publisher_now ntpc world)
          es
          d
      → Logged es (messages d.calls)
  log steps =
      Steps-Logged n q is_timestamp p jiff mqtt_server last_time_sync last_publish publisher_now
        ntpc world steps

  Atomic-IsLogged :
      {es : List Event} {f : Shared Addr World C L}
      → Atomic n q x law is_timestamp p jiff mqtt_server
          (started q last_time_sync last_publish publisher_now ntpc world)
          es
          f
      → IsLogged jiff es (messages f.device.calls)
  Atomic-IsLogged {f = f} (free _ _ _ reached) = (messages f.device.calls, log reached, inl refl)
  Atomic-IsLogged {f = f} (asking checked rest _ a) =
      let (later, split, e) =
        midway rest f a.made a.calls [] a.grown
          (ap (λ r. messages r.1.calls) a.same ∙ messages-time_for n _ checked) in
      (
        messages a.calls,
        log a.reached,
        inl (e ∙ ap (λ l. l ++ messages a.calls) (last_of_none later (messages a.made) split)),
      )
  Atomic-IsLogged {f = f} (publishing m timestamp uptime rest i _ a) =
      let d = record f.device { world = a.world; calls = a.calls } in
      let turn = delivery_with m timestamp uptime panic in
      let whole = ap (λ r. messages r.1.calls) a.same in
      (
        messages a.calls,
        log a.reached,
        elim (one_or_none rest f a.made a.calls (content (post jiff turn)) a.grown
            (elim (messages-publish_message n jiff mqtt_server d m timestamp uptime) [
              | inl sends ↦ inl (whole ∙ sends)
              | inr (_, sends_not) ↦ inr (whole ∙ sends_not)
            ])) [ inl nothing ↦ inl nothing | inr one ↦ inr (turn, one) ],
      )

  -- At any moment of the two tasks, whatever the network answers: the messages sent so far are those of
  -- the deliveries, and at most one more.
  pub Steps-IsLogged :
      {es : List Event} {f : Shared Addr World C L}
      → Steps n q x is_timestamp p jiff mqtt_server
          (shared_started q x last_time_sync last_publish publisher_now ntpc world)
          es
          f
      → IsLogged jiff es (messages f.device.calls)
  Steps-IsLogged steps = Atomic-IsLogged (
      Steps-Atomic n q x law is_timestamp p jiff mqtt_server last_time_sync last_publish
        publisher_now ntpc world steps)
