-- ===== src/Message/RoundTrip.antt =====
-- The published text says what was measured: read by its format, it gives every value back.
use mathlib.Core.List.{append_assoc}
use esp_rf_ook.Prelude.{
  ℕ, ◌+◌, ◌-◌, ◌*◌, ◌<◌, ◌≡◌, ◌≢◌, refl, ◌∙◌, Bool, true, false, some, List, [], ◌∷◌, ◌++◌, arith,
  All, ℤ, pos, negsuc,
}
use esp_rf_ook.Text.Decimal.{decimal, read_number, read-decimal, decimal_head, decimal_digit}
use esp_rf_ook.Sensor.{SensorData, model}
use esp_rf_ook.Sensor.Temperature.{signed, tenths}
use esp_rf_ook.Message.{literal, display_bool, signed_text, temperature_text, message}
use esp_rf_ook.Message.Reader.{
  Report, strip, read_text, read_bool, starts_minus, read_tenths_from, read_tenths, read_message,
}

strip-append : (p rest : List ℕ) → strip p (p ++ rest) ≡ some rest
unfolding strip
strip-append [] rest = refl
strip-append (c ∷ p) rest = ground (arith, strip-append p rest)

abbrev pub HasNoQuote : List ℕ → Type 0
HasNoQuote = All (λ c. c ≢ b'"')

-- A text is closed by the quote that follows it.
abbrev QuoteFirst : List ℕ → Type 0
QuoteFirst t = (rest : List ℕ) → read_text (t ++ rest) ≡ ([], t ++ rest)

read_text-append :
    (t q rest : List ℕ)
    → QuoteFirst q
    → HasNoQuote t
    → read_text (t ++ (q ++ rest)) ≡ (t, q ++ rest)
unfolding read_text
read_text-append [] q rest first h = first rest
read_text-append (c ∷ t) q rest first (hc, h) = ground (arith, read_text-append t q rest first h)

abbrev NonDigitFirst : List ℕ → Type 0
NonDigitFirst t = (n : ℕ) (rest : List ℕ) → read_number n (t ++ rest) ≡ (n, t ++ rest)

number_field :
    (n : ℕ) (t rest : List ℕ)
    → NonDigitFirst t
    → read_number 0 (decimal n ++ (t ++ rest)) ≡ (n, t ++ rest)
number_field n t rest first = read-decimal n (t ++ rest) ∙ first n rest

bool_field : (b : Bool) (rest : List ℕ) → read_bool (display_bool b ++ rest) ≡ some (b, rest)
unfolding read_bool display_bool literal strip
bool_field true rest = refl
bool_field false rest = refl

point_first : NonDigitFirst (literal ".")
unfolding literal read_number
point_first n rest = refl

-- The whole part, the point and the one digit.
tenths_from_field :
    (whole d : ℕ) (rest : List ℕ)
    → d < 10
    → read_tenths_from (decimal whole ++ (literal "." ++ (decimal d ++ rest)))
      ≡ some (whole * 10 + d, rest)
unfolding read_tenths_from
tenths_from_field whole d rest h =
    let e : b'0' + d - b'0' ≡ d = omega arith in
    rw (
      number_field whole (literal ".") (decimal d ++ rest) point_first,
      strip-append (literal ".") (decimal d ++ rest),
      decimal_digit d h,
      number_field whole (literal ".") (decimal d ++ rest) point_first,
      e,
    )

minus_first : (cs : List ℕ) → starts_minus (b'-' ∷ cs) ≡ true
unfolding starts_minus
minus_first cs = refl

no_minus : (n : ℕ) (rest : List ℕ) → starts_minus (decimal n ++ rest) ≡ false
unfolding starts_minus
no_minus n rest = let (c, cs, e, digit) = decimal_head n in rw e (ground arith)

-- The temperature is read back as the tenths that it stands for.
signed_field :
    (sign : ℤ) (whole d : ℕ) (rest : List ℕ)
    → d < 10
    → read_tenths (signed_text sign whole d ++ rest) ≡ some (signed sign (whole * 10 + d), rest)
unfolding read_tenths signed_text
signed_field (pos x) whole d rest h =
    simp append_assoc
      (rw (no_minus whole (literal "." ++ (decimal d ++ rest)), tenths_from_field whole d rest h))
signed_field (negsuc x) whole d rest h = simp append_assoc (
    rw (
      minus_first (decimal whole ++ (literal "." ++ (decimal d ++ rest))),
      strip-append (b'-' ∷ []) (decimal whole ++ (literal "." ++ (decimal d ++ rest))),
      tenths_from_field whole d rest h,
    ))

temperature_field :
    (s : SensorData) (rest : List ℕ)
    → s.temp_decimal < 10
    → read_tenths (temperature_text s ++ rest) ≡ some (tenths s, rest)
unfolding temperature_text
temperature_field s rest h = signed_field s.sign s.temp_int s.temp_decimal rest h

model_quote : QuoteFirst (literal "\", \"model\" : \"")
unfolding literal read_text
model_quote rest = refl

id_quote : QuoteFirst (literal "\", \"id\" : ")
unfolding literal read_text
id_quote rest = refl

channel_comma : NonDigitFirst (literal ", \"channel\" : ")
unfolding literal read_number
channel_comma n rest = refl

battery_comma : NonDigitFirst (literal ", \"battery_ok\" : ")
unfolding literal read_number
battery_comma n rest = refl

uptime_comma : NonDigitFirst (literal ", \"uptime\" : ")
unfolding literal read_number
uptime_comma n rest = refl

closing : NonDigitFirst (literal " }")
unfolding literal read_number
closing n rest = refl

-- What a measurement, its time and the uptime say.
abbrev pub report : List ℕ → SensorData → ℕ → Report
report date_time s uptime = record {
  time = date_time;
  model = model s;
  id = s.id;
  channel = s.channel;
  battery_ok = s.battery_ok;
  temperature = tenths s;
  humidity = s.humidity;
  uptime = uptime;
}

-- A reader of the format gets every value of the published text back: the time, the model, the id,
-- the channel, the battery, the signed temperature in tenths, the humidity and the uptime, if the
-- decimal part is one digit and neither the time nor the model holds a quote.
pub read_message-message :
    (date_time : List ℕ) (s : SensorData) (uptime : ℕ)
    → HasNoQuote date_time
    → HasNoQuote (model s)
    → s.temp_decimal < 10
    → read_message (message date_time s uptime) ≡ some (report date_time s uptime)
unfolding read_message message
read_message-message date_time s uptime no_quote plain digit = rw (
  strip-append,
  read_text-append _ _ _ model_quote no_quote,
  strip-append,
  read_text-append _ _ _ id_quote plain,
  strip-append,
  number_field _ _ _ channel_comma,
  strip-append,
  number_field _ _ _ battery_comma,
  strip-append,
  bool_field,
  strip-append,
  temperature_field s _ digit,
  strip-append,
  number_field _ _ _ uptime_comma,
  strip-append,
  number_field _ _ _ closing,
  strip-append,
  read_text-append _ _ _ model_quote no_quote,
  read_text-append _ _ _ id_quote plain,
  number_field _ _ _ channel_comma,
  number_field _ _ _ battery_comma,
  number_field _ _ _ uptime_comma,
  number_field _ _ _ closing,
)
