-- ===== src/Tests/Lives.antt =====
-- A device that is reset while it publishes, and starts again.
use esp_rf_ook.Prelude.{ℕ, ◌≡◌, refl, ◌⊎◌, Bool, true, none, some, List, [], ◌∷◌, arith, All}
use esp_rf_ook.Network.{Call}
use esp_rf_ook.Network.Program.{resolves, first_of, call_all}
use esp_rf_ook.Ntpc.Calls.{exchange_calls, replied_calls, time_calls}
use esp_rf_ook.Boot.{Answers, wait_connected}
use esp_rf_ook.Station.{symbols}
use esp_rf_ook.System.{Event, heard, delivered}
use esp_rf_ook.Device.{ntp_server}
use esp_rf_ook.Device.Logged.{messages}
use esp_rf_ook.Device.Messages.{Carries, content}
use esp_rf_ook.Shared.{shared_started}
use esp_rf_ook.Wifi
use esp_rf_ook.Wifi.{connection, connections, wait_for_link}
use esp_rf_ook.Life.{Phase, off, running, calls_of, Lives, powers, resets}
use esp_rf_ook.Life.Runs.{runs_all}
use esp_rf_ook.Life.Each.{Paired}
use esp_rf_ook.Life.Carries.{Lives-Carries}
use esp_rf_ook.Life.Logged.{Lives-IsLogged}
use esp_rf_ook.Shared.Logged.{IsLogged}
use esp_rf_ook.Life.Starts.{IsGood, TellsTime, starts_again}
use esp_rf_ook.Life.Recovers.{Lives-recovers}
use esp_rf_ook.Life.Handled.{Waits, message, Handled, Dies, Lives-Handled}
use esp_rf_ook.Tests.Decoding.{unpacker}
use esp_rf_ook.Tests.Stations.{any_time, mild}
use esp_rf_ook.Tests.Starts.{good_start}
use esp_rf_ook.Tests.Publishing.{clock, delivery}
use esp_rf_ook.Tests.Queues.{Messages, queue, queue_laws}
use esp_rf_ook.Tests.Systems.{the_post, date_time_plain}
use esp_rf_ook.Tests.Devices.{network, broker}
use esp_rf_ook.Tests.Arrivals.{accepting, buffer, buffered, Hears-mild, not_silent}
use esp_rf_ook.Tests.Stations.{at_time}
use esp_rf_ook.Tests.Locks.{mutex, mutex_laws, all_rounds, sending, interleaved}

abbrev answers : Answers
answers = record good_start { last_time_sync = 0; last_publish = 0; publisher_now = 0 }

answers-IsGood : IsGood any_time answers
unfolding wait_connected connection Wifi.set_up connections wait_for_link
answers-IsGood = record {
  radio_init = refl;
  wifi_controller = refl;
  connecting = refl;
  addressed = [];
  addressing = refl;
  time_asked = [];
  time_asking = refl;
  got_ip = refl;
  shown = refl;
  rmt = refl;
  rx_channel = refl;
  publisher_spawned = refl;
}

telling : TellsTime network
telling addr port world = (1700000000, refl)

abbrev Life : List (List Event) → List (List (Call ℕ)) → Phase ℕ ℕ Messages Bool → Type 0
Life = Lives network queue mutex any_time unpacker clock broker 0

abbrev first : List (Call ℕ)
first = (call_all network (time_calls ntp_server none) 0 []).1.calls

started_again :
    Life ([] ∷ [] ∷ []) ([] ∷ []) (running (shared_started queue mutex 0 0 0 (some 99) 7) first)
unfolding call_all time_calls resolves first_of exchange_calls replied_calls
started_again =
    starts_again network queue mutex any_time unpacker clock broker 0 answers answers-IsGood
      accepting telling powers

publishing : Life (all_rounds ∷ [] ∷ []) ([] ∷ []) (running sending first)
publishing =
    runs_all network queue mutex any_time unpacker clock broker 0 first started_again interleaved

abbrev cut_off : Phase ℕ ℕ Messages Bool
cut_off = off 11

reset : Life ([] ∷ all_rounds ∷ [] ∷ []) (calls_of (running sending first) ∷ [] ∷ []) cut_off
reset = resets publishing

Lives-Carries_example :
    Paired
      (λ es made. All (Carries clock es) (messages made))
      ([] ∷ all_rounds ∷ [] ∷ [])
      (calls_of cut_off ∷ calls_of (running sending first) ∷ [] ∷ [])
Lives-Carries_example =
    Lives-Carries network queue queue_laws mutex mutex_laws any_time unpacker clock broker
      (λ t. date_time_plain) 0 reset

Lives-IsLogged_example :
    Paired
      (λ es made. IsLogged clock es (messages made))
      ([] ∷ all_rounds ∷ [] ∷ [])
      (calls_of cut_off ∷ calls_of (running sending first) ∷ [] ∷ [])
Lives-IsLogged_example =
    Lives-IsLogged network queue mutex mutex_laws any_time unpacker clock broker 0 reset

abbrev the_message : Waits sending
the_message = message mild 7000000 refl

Lives-Handled_example :
    Handled network queue mutex mutex_laws any_time unpacker clock broker 0 first all_rounds
      ([] ∷ [])
      ([] ∷ [])
      sending
      the_message
    ⊎ Dies network queue mutex mutex_laws any_time unpacker clock broker 0 first all_rounds
        ([] ∷ [])
        ([] ∷ [])
        sending
        the_message
Lives-Handled_example =
    Lives-Handled network queue mutex mutex_laws any_time unpacker clock broker 0 first all_rounds
      ([] ∷ []) ([] ∷ []) sending publishing the_message

Lives-recovers_example :
    (s' : Phase ℕ ℕ Messages Bool) × Life
      ((delivered (delivery 7000000 true) the_post
          ∷ heard (at_time 7000000 (symbols buffer 37))
          ∷ heard (at_time 1200000 (symbols buffer 37))
          ∷ heard (at_time 1100000 (symbols buffer 37))
          ∷ heard (at_time 1000000 (symbols buffer 37))
          ∷ [])
        ∷ []
        ∷ all_rounds
        ∷ []
        ∷ [])
      (calls_of cut_off ∷ calls_of (running sending first) ∷ [] ∷ [])
      s'
    × (messages (calls_of s') ≡ content the_post ∷ [])
Lives-recovers_example =
    Lives-recovers network queue queue_laws mutex mutex_laws any_time unpacker clock broker 0
      answers mild mild mild mild mild (buffered 1000000) (buffered 1100000) (buffered 1200000)
      (buffered 7000000) 12 reset answers-IsGood accepting telling
      (Hears-mild 1000000 (omega arith)) (Hears-mild 1100000 (omega arith))
      (Hears-mild 1200000 (omega arith)) (Hears-mild 7000000 (omega arith)) (omega arith) not_silent
      refl
