-- ===== src/Tests/Queues.antt =====
-- embassy's channel, as it is documented.
use esp_rf_ook.Prelude.{
  ℕ, ◌<◌, ◌≤◌, ◌≡◌, refl, Option, none, some, List, [], ◌∷◌, ◌++◌, length, ltb, if◌then◌else◌,
  arith,
}
use esp_rf_ook.Sensor.{SensorData}
use esp_rf_ook.Channel.{Channel, IsChannel}
use esp_rf_ook.System.{capacity}

abbrev pub Messages : Type 0
Messages = List (SensorData × ℕ)

abbrev pub uncons : Messages → Option ((SensorData × ℕ) × Messages)
uncons [] = none
uncons (m ∷ rest) = some (m, rest)

abbrev pub queue : Channel (SensorData × ℕ) Messages
queue = record {
  empty = [];
  send = λ m c. if ltb (length c) capacity then some (c ++ m ∷ []) else none;
  receive = uncons;
}

pub uncons_front :
    (c : Messages) (m : SensorData × ℕ) (rest : Messages)
    → c ≡ m ∷ rest
    → (c' : Messages) × (uncons c ≡ some (m, c')) × (c' ≡ rest)
uncons_front c m rest e = (rest, rw e, refl)

pub queue_room :
    (m : SensorData × ℕ) (c : Messages) → length c < capacity → queue.send m c ≡ some (c ++ m ∷ [])
queue_room m c h = ground arith

pub queue_full : (m : SensorData × ℕ) (c : Messages) → capacity ≤ length c → queue.send m c ≡ none
queue_full m c h = ground arith

pub queue_nil : (c : Messages) → c ≡ [] → uncons c ≡ none
queue_nil c e = rw e

abbrev pub queue_laws : IsChannel capacity queue
queue_laws = record {
  held = λ c. c;
  held-empty = refl;
  send_room = λ m c h. (c ++ m ∷ [], queue_room m c h, refl);
  send_full = queue_full;
  receive_nil = queue_nil;
  receive_cons = uncons_front;
}
