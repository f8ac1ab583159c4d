-- ===== src/Decoder/Fields.antt =====
-- The payload as slices of the 36 bits that were sent, and the unpacked bytes against it.
use esp_rf_ook.Prelude.{
  ℕ, zero, suc, ◌+◌, ◌-◌, ◌*◌, ◌/◌, ◌%◌, ◌^◌, ◌<◌, ◌≡◌, refl, sym, ap, ◌∙◌, Bool, List, [], ◌∷◌,
  ◌++◌, arith, ◌==◌, length, take, drop, length-drop,
}
use esp_rf_ook.Prelude.Bytes.{value, value-lt, value-append, big_endian, div_of_split}
use esp_rf_ook.Sensor.{NexusThPayload, layout}

-- The number that the bits `first` to `last` of the transmission spell.
abbrev pub field : ℕ → ℕ → List Bool → ℕ
field first last bits = value (take (last - first + 1) (drop first bits))

-- AAAAAAAA BX CC DDDDDDDDDDDD EEEE FFFFFFFF
abbrev pub payload_of : List Bool → NexusThPayload
payload_of bits = record {
  id = field 0 7 bits;
  battery_ok = field 8 8 bits == 1;
  unknown_0 = field 9 9 bits;
  channel = field 10 11 bits;
  temp_10x = field 12 23 bits;
  unknown_1 = field 24 27 bits;
  humidity = field 28 35 bits;
}

take-append-drop : (n : ℕ) (bs : List Bool) → take n bs ++ drop n bs ≡ bs
take-append-drop zero bs = refl
take-append-drop (suc n) [] = refl
take-append-drop (suc n) (b ∷ bs) = ap (◌∷◌ b) (take-append-drop n bs)

value_split :
    (n : ℕ) (bs : List Bool)
    → let m = 2 ^ (length bs - n) in
      (value bs ≡ value (take n bs) * m + value (drop n bs)) × (value (drop n bs) < m)
value_split n bs =
    let e = value-append (take n bs) (drop n bs) in
    let w = length-drop n bs in
    (ap value (sym (take-append-drop n bs)) ∙ e ∙ rw w, rw (← w) (value-lt (drop n bs)))

pub value-take : (n : ℕ) (bs : List Bool) → value (take n bs) ≡ value bs / 2 ^ (length bs - n)
value-take n bs =
    let (e, small) = value_split n bs in
    rw e (sym (div_of_split (value (take n bs)) (2 ^ (length bs - n)) (value (drop n bs)) small).0)

pub value-drop : (n : ℕ) (bs : List Bool) → value (drop n bs) ≡ value bs % 2 ^ (length bs - n)
value-drop n bs =
    let (e, small) = value_split n bs in
    rw e (sym (div_of_split (value (take n bs)) (2 ^ (length bs - n)) (value (drop n bs)) small).1)

field_lem :
    (first last : ℕ) (bits : List Bool)
    → length bits ≡ 36
    → field first last bits ≡ value bits % 2 ^ (36 - first) / 2 ^ (36 - first - (last - first + 1))
field_lem first last bits h =
    value-take (last - first + 1) (drop first bits)
    ∙ rw (length-drop first bits, h, value-drop first bits, h)

-- The bits fill all but the last four places of the five bytes.
pub layout-payload_of :
    (bits : List Bool) (bytes : List ℕ)
    → length bits ≡ 36
    → big_endian bytes ≡ value bits * 16
    → layout bytes ≡ payload_of bits
unfolding layout
layout-payload_of bits bytes h e = λ i. record {
  id = same 0 7 (omega arith) i;
  battery_ok = same 8 8 (omega arith) i == 1;
  unknown_0 = same 9 9 (omega arith) i;
  channel = same 10 11 (omega arith) i;
  temp_10x = same 12 23 (omega arith) i;
  unknown_1 = same 24 27 (omega arith) i;
  humidity = same 28 35 (omega arith) i;
}
  where
    same :
        (first last : ℕ)
        → (value bits * 16 / 2 ^ (39 - last) % 2 ^ (last - first + 1)
            ≡ value bits % 2 ^ (36 - first) / 2 ^ (36 - first - (last - first + 1)))
        → big_endian bytes / 2 ^ (39 - last) % 2 ^ (last - first + 1) ≡ field first last bits
    same first last a = rw e (a ∙ sym (field_lem first last bits h))
