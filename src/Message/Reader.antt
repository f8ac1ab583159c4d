-- ===== src/Message/Reader.antt =====
-- A reader of the published text, written from the format alone.
use esp_rf_ook.Prelude.{
  ℕ, ◌+◌, ◌-◌, ◌*◌, Bool, true, false, Option, none, some, List, [], ◌∷◌, ◌==◌, if◌then◌else◌, ℤ,
  pos, sub_ℕ,
}
use esp_rf_ook.Prelude.Options.{◌>>=◌}
use esp_rf_ook.Text.Decimal.{read_number}
use esp_rf_ook.Message.{literal}

-- What the text says.
pub record Report : Type 0 where
  pub time : List ℕ
  pub model : List ℕ
  pub id : ℕ
  pub channel : ℕ
  pub battery_ok : Bool
  pub temperature : ℤ  -- in tenths
  pub humidity : ℕ
  pub uptime : ℕ

unfoldable pub strip : List ℕ → List ℕ → Option (List ℕ)
strip [] cs = some cs
strip (p ∷ ps) [] = none
strip (p ∷ ps) (c ∷ cs) = let rest = strip ps cs in if p == c then rest else none

-- The characters before the next quote.
unfoldable pub read_text : List ℕ → List ℕ × List ℕ
read_text [] = ([], [])
read_text (c ∷ cs) =
    let (text, rest) = read_text cs in if c == b'"' then ([], c ∷ cs) else (c ∷ text, rest)

unfoldable pub read_bool : List ℕ → Option (Bool × List ℕ)
read_bool [] = none
read_bool (c ∷ cs) =
    if c == b't'
    then (do rest ← strip (literal "rue") cs; some (true, rest))
    else (do rest ← strip (literal "alse") cs; some (false, rest))

-- An optional sign, digits, a point and one digit, in tenths.
unfoldable pub read_tenths_from : List ℕ → Option (ℕ × List ℕ)
read_tenths_from cs = do
  let (whole, rest) = read_number 0 cs
  rest' ← strip (literal ".") rest
  elim rest' [ [] ↦ none | d ∷ rest'' ↦ some (whole * 10 + (d - b'0'), rest'') ]

unfoldable pub starts_minus : List ℕ → Bool
starts_minus [] = false
starts_minus (c ∷ cs) = c == b'-'

unfoldable pub read_tenths : List ℕ → Option (ℤ × List ℕ)
read_tenths cs =
    if starts_minus cs
    then (do cs' ← strip (b'-' ∷ []) cs; (n, rest) ← read_tenths_from cs'; some (sub_ℕ 0 n, rest))
    else (do (n, rest) ← read_tenths_from cs; some (pos n, rest))

unfoldable pub read_message : List ℕ → Option Report
read_message cs = do
  cs ← strip (literal "{\"time\" : \"") cs
  let (time, cs) = read_text cs
  cs ← strip (literal "\", \"model\" : \"") cs
  let (model, cs) = read_text cs
  cs ← strip (literal "\", \"id\" : ") cs
  let (id, cs) = read_number 0 cs
  cs ← strip (literal ", \"channel\" : ") cs
  let (channel, cs) = read_number 0 cs
  cs ← strip (literal ", \"battery_ok\" : ") cs
  (battery_ok, cs) ← read_bool cs
  cs ← strip (literal ", \"temperature_C\" : ") cs
  (temperature, cs) ← read_tenths cs
  cs ← strip (literal ", \"humidity\" : ") cs
  let (humidity, cs) = read_number 0 cs
  cs ← strip (literal ", \"uptime\" : ") cs
  let (uptime, cs) = read_number 0 cs
  cs ← strip (literal " }") cs
  elim cs [
    | [] ↦ some (record {
      time = time;
      model = model;
      id = id;
      channel = channel;
      battery_ok = battery_ok;
      temperature = temperature;
      humidity = humidity;
      uptime = uptime;
    })
    | c ∷ rest ↦ none
  ]
