-- ===== src/Tests/Starts.antt =====
-- Examples of the start, and of the build script.
use esp_rf_ook.Prelude.{ℕ, Bool, true, false, none, some, List, [], ◌∷◌, ok}
use esp_rf_ook.Text.{codes}
use esp_rf_ook.Wifi.{Radio}
use esp_rf_ook.Boot.{Answers, boot}
use esp_rf_ook.Boot.Start.{Ends, boot-Ends}
use esp_rf_ook.Build.{main}
use esp_rf_ook.Build.Script.{stdout, main-Answers}
use esp_rf_ook.Build.Script

abbrev any_time : ℕ → Bool
any_time t = true

abbrev refused : Radio
refused = record {
  is_connected = false;
  is_started = some false;
  set_config = true;
  start = true;
  scan = true;
  connect = false;
}

abbrev linked : Radio
linked = record refused { is_started = some true; connect = true }

-- A second attempt brings the link up.
abbrev pub good_start : Answers
good_start = record {
  radio_init = true;
  wifi_controller = true;
  connecting = refused ∷ linked ∷ [];
  addressing = [];
  time_asking = [];
  got_ip = true;
  ntp = ok 1700000000;
  last_time_sync = 1700000000000100;
  shown = 1700000000000200;
  rmt = true;
  rx_channel = true;
  publisher_now = 1700000000000300;
  publisher_spawned = true;
  last_publish = 1700000000000400;
}

boot-Ends_example : Ends any_time good_start (boot any_time good_start)
boot-Ends_example = boot-Ends any_time good_start

abbrev linker_call : List (List ℕ)
linker_call = codes "build" ∷ codes "undefined-symbol" ∷ codes "_stack_start" ∷ []

main-Answers_example :
    let (out, ending) = main none linker_call in Script.Answers none linker_call (stdout out) ending
main-Answers_example = main-Answers none linker_call
