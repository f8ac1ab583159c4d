-- ===== src/Tests/Systems.antt =====
-- Four frames, and the delivery of the one message they make.
use esp_rf_ook.System.Progress.{Goes, Relieves, Finishes, Step-progress}
use esp_rf_ook.Channel.{send_all}
use esp_rf_ook.Tests.Queues.{Messages, queue, queue_laws}
use esp_rf_ook.Prelude.{ℕ, ◌≡◌, refl, true, some, List, [], ◌∷◌, arith, map, All, ◌⊎◌, length}
use esp_rf_ook.Sensor.{layout, new, default, from, equal}
use esp_rf_ook.Decoder.{decode}
use esp_rf_ook.Message.RoundTrip.{HasNoQuote}
use esp_rf_ook.Station.{
  Station, Action, feed, send, start, on_measurement, on_received, resync, round,
}
use esp_rf_ook.Publisher.{Post, post, deliver}
use esp_rf_ook.System.{
  System, Event, heard, delivered, fresh, receives, takes, publishes, Steps, here, next, capacity,
}
use esp_rf_ook.System.Refines.{IsRefined, Steps-IsRefined, deliveries_of, posts_of, rounds_of}
use esp_rf_ook.System.Reported.{IsReported, posts-IsReported}
use esp_rf_ook.Tests.Decoding.{unpacker}
use esp_rf_ook.Tests.Stations.{any_time, heard_at, mild}
use esp_rf_ook.Tests.Publishing.{date_time, clock, delivery}

abbrev pub counted : ℕ → ℕ → Station
counted n last = record {
  measurement = mild;
  measurement_cnt = n;
  last_publish = last;
  last_time_sync = 0;
}

abbrev listening : ℕ → System Messages
listening n = record (fresh queue 0 0 0) { station = counted n 0 }

abbrev pub quiet : List Action
quiet = feed ∷ feed ∷ []

pub first_frame : round any_time unpacker (start 0 0) (heard_at 1000000) ≡ some (counted 1 0, quiet)
unfolding round resync on_received on_measurement start decode from layout new default equal
first_frame = refl

pub second_frame :
    round any_time unpacker (counted 1 0) (heard_at 1100000) ≡ some (counted 2 0, quiet)
unfolding round resync on_received on_measurement decode from layout new equal
second_frame = refl

pub third_frame :
    round any_time unpacker (counted 2 0) (heard_at 1200000) ≡ some (counted 3 0, quiet)
unfolding round resync on_received on_measurement decode from layout new equal
third_frame = refl

pub fourth_frame :
    round any_time unpacker (counted 3 0) (heard_at 7000000)
    ≡ some (counted 3 7000000, feed ∷ feed ∷ send mild 7000000 ∷ [])
unfolding round resync on_received on_measurement decode from layout new equal
fourth_frame = refl

pub the_delivery :
    deliver clock 0 (delivery 7000000 true) ≡ some (7000000, post clock (delivery 7000000 true))
unfolding deliver
the_delivery = refl

abbrev pub the_post : Post
the_post = post clock (delivery 7000000 true)

abbrev pub events : List Event
events =
    delivered (delivery 7000000 true) the_post
    ∷ heard (heard_at 7000000)
    ∷ heard (heard_at 1200000)
    ∷ heard (heard_at 1100000)
    ∷ heard (heard_at 1000000)
    ∷ []

abbrev loaded : System Messages
loaded = record (listening 3) { station = counted 3 7000000; channel = (mild, 7000000) ∷ [] }

abbrev at_rest : System Messages
at_rest = record (listening 3) { station = counted 3 7000000; last_publish = 7000000 }

pub nothing_sent : (c : Messages) → send_all queue [] c ≡ some c
unfolding send_all
nothing_sent c = refl

pub first_sent : send_all queue ((mild, 7000000) ∷ []) [] ≡ some ((mild, 7000000) ∷ [])
unfolding send_all
first_sent = refl

all_four :
    Steps queue any_time unpacker clock
      (fresh queue 0 0 0)
      (heard (heard_at 7000000)
        ∷ heard (heard_at 1200000)
        ∷ heard (heard_at 1100000)
        ∷ heard (heard_at 1000000)
        ∷ [])
      loaded
all_four =
    next _
      (next _
        (next _
          (next _ here (
            receives (fresh queue 0 0 0) (heard_at 1000000) (counted 1 0) quiet [] first_frame
              (nothing_sent [])))
          (receives (listening 1) (heard_at 1100000) (counted 2 0) quiet [] second_frame
            (nothing_sent [])))
        (receives (listening 2) (heard_at 1200000) (counted 3 0) quiet [] third_frame
          (nothing_sent [])))
      (receives (listening 3) (heard_at 7000000) (counted 3 7000000)
        (feed ∷ feed ∷ send mild 7000000 ∷ []) _ fourth_frame first_sent)

steps : Steps queue any_time unpacker clock (fresh queue 0 0 0) events at_rest
steps = next _ (next _ all_four (takes loaded (mild, 7000000) [] refl refl)) (
    publishes (record loaded { channel = []; in_hand = some (mild, 7000000) })
      (delivery 7000000 true) 7000000 the_post refl the_delivery)

Steps-IsRefined_example : IsRefined queue queue_laws any_time unpacker clock 0 0 0 events at_rest
Steps-IsRefined_example = Steps-IsRefined queue queue_laws any_time unpacker clock 0 0 0 steps

pub date_time_plain : HasNoQuote date_time
date_time_plain = omega arith

posts-IsReported_example :
    (posts_of events ≡ map (post clock) (deliveries_of events))
    × All (IsReported clock (rounds_of events)) (deliveries_of events)
posts-IsReported_example =
    posts-IsReported unpacker clock (λ t. date_time_plain) queue queue_laws any_time 0 0 0 steps

-- Six seconds later the channel is full, and twelve seconds later the loop has to wait.
fifth_frame :
    round any_time unpacker (counted 3 7000000) (heard_at 13000000)
    ≡ some (counted 3 13000000, feed ∷ feed ∷ send mild 13000000 ∷ [])
unfolding round resync on_received on_measurement decode from layout new equal
fifth_frame = refl

sixth_frame :
    round any_time unpacker (counted 3 13000000) (heard_at 19000000)
    ≡ some (counted 3 19000000, feed ∷ feed ∷ send mild 19000000 ∷ [])
unfolding round resync on_received on_measurement decode from layout new equal
sixth_frame = refl

second_sent :
    send_all queue ((mild, 13000000) ∷ []) ((mild, 7000000) ∷ [])
    ≡ some ((mild, 7000000) ∷ (mild, 13000000) ∷ [])
unfolding send_all
second_sent = refl

abbrev crowded : System Messages
crowded = record (listening 3) {
  station = counted 3 13000000;
  channel = (mild, 7000000) ∷ (mild, 13000000) ∷ [];
}

Step-progress_example :
    Goes queue any_time unpacker clock (heard_at 19000000) crowded
    ⊎ (length crowded.channel ≡ capacity)
      × (Relieves queue any_time unpacker clock (heard_at 19000000) crowded
          ⊎ Finishes queue any_time unpacker clock (heard_at 19000000) crowded 12 true)
Step-progress_example =
    Step-progress queue any_time unpacker clock queue_laws (heard_at 19000000) 0 0 0 12 true
      (next _ all_four (
        receives loaded (heard_at 13000000) (counted 3 13000000)
          (feed ∷ feed ∷ send mild 13000000 ∷ []) _ fifth_frame second_sent))
      sixth_frame
