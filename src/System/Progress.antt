-- ===== src/System/Progress.antt =====
-- The two tasks never wait for one another.
use native.Mathlib.Decide.{dec_lt}
use esp_rf_ook.Prelude.{
  ℕ, ◌≤◌, ◌<◌, ◌≡◌, refl, ap, ◌⊎◌, inl, inr, Bool, none, some, Option-cases, List, [], ◌∷◌, arith,
  length,
}
use esp_rf_ook.Sensor.{SensorData, PackedStruct}
use esp_rf_ook.Station.{Station, Action, Round, on_measurement, round}
use esp_rf_ook.Station.Cases.{on_measurement_cases}
use esp_rf_ook.Station.Effect.{sends, accepted, Effect, round-Effect}
use esp_rf_ook.Publisher.{Jiff, Delivery, Post, deliver}
use esp_rf_ook.Channel.{Channel, IsChannel, send_all_room, receive_some, receive_inv}
use esp_rf_ook.System.{
  capacity, System, taken, Event, heard, delivered, fresh, Step, receives, takes, publishes, Steps,
}
use esp_rf_ook.System.Refines.{Steps-IsRefined}

length-sends :
    (s : Station) (now : ℕ) (m : SensorData) → length (sends (on_measurement s now m).1) ≤ 1
length-sends s now m = elim (on_measurement_cases s now m) [
  | inl (_, e) ↦ rw e (omega arith)
  | inr (inl (_, _, _, e)) ↦ rw e (omega arith)
  | inr (inr (inl (_, _, e))) ↦ rw e (omega arith)
  | inr (inr (inr (_, _, _, e))) ↦ rw e (omega arith)
]

length-Effect :
    (s s' : Station) (now : ℕ) (ms : List SensorData) (sent : List (SensorData × ℕ))
    → Effect s now ms s' sent
    → length sent ≤ 1
length-Effect s s' now [] sent (_, e) = rw e (omega arith)
length-Effect s s' now (m ∷ ms) sent (_, e) = rw e (length-sends s now m)

module _ {C : Type 0} (q : Channel (SensorData × ℕ) C) (is_timestamp : ℕ → Bool) (p : PackedStruct)
    (jiff : Jiff) where
  -- The loop does the round, its message included.
  abbrev pub Goes : Round → System C → Type 0
  Goes r s = (t : System C) × Step q is_timestamp p jiff s (heard r ∷ []) t

  -- The publisher receives a message, and then the loop does the round.
  abbrev pub Relieves : Round → System C → Type 0
  Relieves r s = (t : System C) × Step q is_timestamp p jiff s [] t × Goes r t

  -- The publisher ends its turn, with this uptime and result: it panics, or receives the next message,
  -- and then the loop does the round.
  abbrev pub Finishes : Round → System C → ℕ → Bool → Type 0
  Finishes r s uptime published =
      (d : Delivery) × (s.in_hand ≡ some (taken d))
      × (d.uptime ≡ uptime)
      × (d.published ≡ published)
      × ((deliver jiff s.last_publish d ≡ none)
          ⊎ ((posted : Post) × (t : System C) × Step q is_timestamp p jiff s
                (delivered d posted ∷ []) t
              × Relieves r t))

  module _ (law : IsChannel capacity q) (r : Round) {station : Station}
      {actions : List Action} where
    Goes-room :
        (s : System C)
        → round is_timestamp p s.station r ≡ some (station, actions)
        → length (law.held s.channel) < capacity
        → Goes r s
    Goes-room s e room =
        let one =
          length-Effect s.station station r.now (accepted p r) (sends actions)
            (round-Effect is_timestamp p s.station r e) in
        let (c, sent) = send_all_room capacity q law (sends actions) s.channel one room in
        (_, receives s r station actions c e sent)

    Relieves-idle :
        (s : System C)
        → round is_timestamp p s.station r ≡ some (station, actions)
        → length (law.held s.channel) ≤ capacity
        → 0 < length (law.held s.channel)
        → s.in_hand ≡ none
        → Relieves r s
    Relieves-idle s e small some_held idle =
        let (m, c, received) = receive_some capacity q law s.channel some_held in
        let first = receive_inv capacity q law m s.channel c received in
        (
          _,
          takes s m c idle received,
          Goes-room (record s { channel = c; in_hand = some m }) e
              (omega (arith, small, ap length first)),
        )

    Finishes-turn :
        (s : System C) (m : SensorData × ℕ) (uptime : ℕ) (published : Bool)
        → round is_timestamp p s.station r ≡ some (station, actions)
        → length (law.held s.channel) ≤ capacity
        → 0 < length (law.held s.channel)
        → s.in_hand ≡ some m
        → Finishes r s uptime published
    Finishes-turn s m uptime published e small some_held front =
        let d : Delivery = record {
          measurement = m.0;
          timestamp = m.1;
          uptime = uptime;
          published = published;
        } in
        elim (Option-cases (deliver jiff s.last_publish d)) [
          | inl e' ↦ (d, front, refl, refl, inl e')
          | inr ((last, posted), e') ↦
              let t : System C = record s { in_hand = none; last_publish = last } in
              (
                d,
                front,
                refl,
                refl,
                inr (
                  posted,
                  t,
                  publishes s d last posted front e',
                  Relieves-idle t e small some_held refl,
                ),
              )
        ]

    -- There is no deadlock: in every state that the system reaches, where the loop has a round to do and
    -- the round does not panic, either the loop does it, its message included; or the channel is full,
    -- and the publisher makes room, after which the loop does it: it receives a message, after it has
    -- ended the turn that it is at, if any, whatever the uptime and the result, or it panics in that turn.
    -- This is so for every channel that keeps the laws of a queue.
    pub Step-progress :
        (last_time_sync last_publish publisher_now : ℕ) {es : List Event} {s : System C}
        (uptime : ℕ) (published : Bool)
        → Steps q is_timestamp p jiff (fresh q last_time_sync last_publish publisher_now) es s
        → round is_timestamp p s.station r ≡ some (station, actions)
        → Goes r s
          ⊎ (length (law.held s.channel) ≡ capacity)
            × (Relieves r s ⊎ Finishes r s uptime published)
    Step-progress last_time_sync last_publish publisher_now {es} {s} uptime published steps e =
        let small =
          (Steps-IsRefined q law is_timestamp p jiff last_time_sync last_publish publisher_now
            steps).bounded in
        elim (dec_lt (length (law.held s.channel)) capacity) [
          | yes room ↦ inl (Goes-room s e room)
          | no full ↦ inr (
            omega arith,
            elim (Option-cases s.in_hand) [
              | inl idle ↦ inl (Relieves-idle s e small (omega arith) idle)
              | inr (m, front) ↦
                  inr (Finishes-turn s m uptime published e small (omega arith) front)
            ],
          )
        ]
