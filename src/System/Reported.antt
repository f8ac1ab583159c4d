-- ===== src/System/Reported.antt =====
-- From the antenna to the broker: every text that is posted reports a frame that was received.
use mathlib.Core.Option.{some-injective, some-ne-none}
use mathlib.Core.Path.{subst}
use esp_rf_ook.Prelude.{
  ℕ, ◌≡◌, sym, ap, ◌∙◌, ◌⊎◌, inl, inr, Bool, some, List, [], ◌∷◌, ◌++◌, map, All,
}
use esp_rf_ook.Sensor.{SensorData, PackedStruct}
use esp_rf_ook.Decoder.{PulseCode}
use esp_rf_ook.Station.{symbols, Round}
use esp_rf_ook.Station.Effect.{sends, accepted, decoded_from}
use esp_rf_ook.Station.Runs.{Published, run-start-Published}
use esp_rf_ook.Message.RoundTrip.{HasNoQuote}
use esp_rf_ook.Publisher.{Jiff, Delivery, Post, post, deliver_all}
use esp_rf_ook.Publisher.Silence.{deliver_all_survives}
use esp_rf_ook.Publisher.Content.{Reports, post-decode}
use esp_rf_ook.Channel.{Channel, IsChannel}
use esp_rf_ook.System.{capacity, System, taken, Event, fresh, Steps}
use esp_rf_ook.System.Refines.{rounds_of, deliveries_of, posts_of, Steps-IsRefined}

-- One of the list.
abbrev pub Any {ℓ} : {A : Type ℓ} → (A → Type 0) → List A → Type 0
Any P [] = ⊥
Any P (x ∷ xs) = P x ⊎ Any P xs

Any-imp :
    {P Q : Round → Type 0} → ((r : Round) → P r → Q r) → (rs : List Round) → Any P rs → Any Q rs
Any-imp f [] h = absurd h
Any-imp f (r ∷ rs) (inl h) = inl (f r h)
Any-imp f (r ∷ rs) (inr h) = inr (Any-imp f rs h)

pub All-imp :
    {A : Type 0} {P Q : A → Type 0} → ((a : A) → P a → Q a) → (xs : List A) → All P xs → All Q xs
All-imp f [] h = tt
All-imp f (x ∷ xs) (h, hs) = (f x h, All-imp f xs hs)

pub All-front : {A : Type 0} (P : A → Type 0) (xs ys : List A) → All P (xs ++ ys) → All P xs
All-front P [] ys h = tt
All-front P (x ∷ xs) ys (h, hs) = (h, All-front P xs ys hs)

All-unmap :
    (P : SensorData × ℕ → Type 0) (ds : List Delivery)
    → All P (map taken ds)
    → All (λ d. P (taken d)) ds
All-unmap P [] h = tt
All-unmap P (d ∷ ds) (h, hs) = (h, All-unmap P ds hs)

-- Some round decodes the measurement.
abbrev pub Heard : PackedStruct → List Round → SensorData × ℕ → Type 0
Heard p rs (m, t) = Any (λ r. accepted p r ≡ m ∷ []) rs

Published-Heard :
    (p : PackedStruct) (rs : List Round) (last : ℕ) (history : List SensorData)
    (sent : List (SensorData × ℕ))
    → Published p last history rs sent
    → All (Heard p rs) sent
Published-Heard p [] last history sent h = subst (All (Heard p [])) (sym h) tt
Published-Heard p (r ∷ rs) last history sent (inl h) =
    All-imp (λ m k. inr k) sent (Published-Heard p rs last (accepted p r ++ history) sent h)
Published-Heard p (r ∷ rs) last history sent (inr (m, later, here, e, _, h)) =
    subst (All (Heard p (r ∷ rs))) (sym e)
      (inl here, All-imp (λ m k. inr k) later (Published-Heard p rs r.now (m ∷ history) later h))

-- A delivery whose post reports the symbols that one of the rounds received.
abbrev pub IsReported : Jiff → List Round → Delivery → Type 0
IsReported jiff rs d =
    Any
      (λ r.
        (buffer : List PulseCode) × (n : ℕ) × (r.received ≡ symbols buffer n)
        × Reports jiff buffer 1 n d (post jiff d))
      rs

module _ (p : PackedStruct) (jiff : Jiff) (plain : (t : ℕ) → HasNoQuote (jiff.date_time t)) where
  Heard-IsReported : (rs : List Round) (d : Delivery) → Heard p rs (taken d) → IsReported jiff rs d
  Heard-IsReported rs d =
      Any-imp
        (λ r h.
          let (buffer, n, e, decoded) = decoded_from p r h in
          (buffer, n, e, post-decode jiff p buffer 1 n d (plain d.timestamp) decoded))
        rs

  -- However the two tasks interleave, the texts that are posted are those of the deliveries, in order,
  -- and each reports the frame that one of the rounds received: its id, its signed temperature, its
  -- humidity cut at 100, on channel 1; if no printed time holds a quote.
  -- This is so for every channel that keeps the laws of a queue.
  pub posts-IsReported :
      {C : Type 0} (q : Channel (SensorData × ℕ) C) (law : IsChannel capacity q)
      (is_timestamp : ℕ → Bool) (last_time_sync last_publish publisher_now : ℕ) {es : List Event}
      {s : System C}
      → Steps q is_timestamp p jiff (fresh q last_time_sync last_publish publisher_now) es s
      → (posts_of es ≡ map (post jiff) (deliveries_of es))
        × All (IsReported jiff (rounds_of es)) (deliveries_of es)
  posts-IsReported q law is_timestamp last_time_sync last_publish publisher_now {es} {s} steps =
      let k =
        Steps-IsRefined q law is_timestamp p jiff last_time_sync last_publish publisher_now steps in
      let published =
        run-start-Published is_timestamp p (rounds_of es) last_time_sync last_publish k.ran in
      let heard = Published-Heard p (rounds_of es) last_publish [] (sends k.actions) published in
      let heard' = subst (All (Heard p (rounds_of es))) (sym k.in_order) heard in
      (
        posts_lem publisher_now (deliveries_of es) k.published,
        All-imp (Heard-IsReported (rounds_of es)) (deliveries_of es) (
            All-unmap (Heard p (rounds_of es)) (deliveries_of es)
              (All-front (Heard p (rounds_of es)) (map taken (deliveries_of es)) _ heard')),
      )
    where
      posts_lem :
          (last : ℕ) (ds : List Delivery) {last' : ℕ} {posts : List Post}
          → deliver_all jiff last ds ≡ some (last', posts)
          → posts ≡ map (post jiff) ds
      posts_lem last ds e =
          let (timely, all) = deliver_all_survives jiff last ds in
          let e' = all (timely (λ n. some-ne-none _ (sym e ∙ n))) in
          ap (λ x. x.1) (some-injective _ _ (sym e ∙ e'))
