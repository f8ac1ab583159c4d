-- ===== src/Sensor/Model.antt =====
-- `SensorData::new` and `model` of src/decoder.rs: the name goes into 32 bytes and comes back.
use esp_rf_ook.Prelude.{
  ℕ, zero, suc, ◌-◌, min, ◌≡◌, refl, ap, ◌∙◌, ◌≢◌, Bool, List, [], ◌∷◌, ◌++◌, arith, if◌then◌else◌,
  ℤ, length, take, drop, replicate, All,
}
use esp_rf_ook.Text.{is_utf8, from_utf8}
use esp_rf_ook.Sensor.{new, position_zero, model_arr, text_before_nul, unwrap_or, model}

-- No byte of the name is zero.
abbrev pub IsNulFree : List ℕ → Type 0
IsNulFree = All (λ b. b ≢ 0)

IsNulFree-take : (n : ℕ) (name : List ℕ) → IsNulFree name → IsNulFree (take n name)
IsNulFree-take zero name h = tt
IsNulFree-take (suc n) [] h = tt
IsNulFree-take (suc n) (b ∷ name) (hb, h) = (hb, IsNulFree-take n name h)

drop-replicate : (n m : ℕ) → drop {A = ℕ} n (replicate m 0) ≡ replicate (m - n) 0
drop-replicate zero m = let e : m - 0 ≡ m = omega arith in rw e
drop-replicate (suc n) zero = let e : 0 - suc n ≡ 0 = omega arith in rw e
drop-replicate (suc n) (suc m) =
    let e : suc m - suc n ≡ m - n = omega arith in rw e (drop-replicate n m)

-- The length that `model` finds: that of the bytes before the padding.
found_length :
    (bs : List ℕ) (k : ℕ)
    → IsNulFree bs
    → unwrap_or (position_zero (bs ++ replicate k 0)) (length (bs ++ replicate k 0)) ≡ length bs
unfolding position_zero
found_length [] zero h = refl
found_length [] (suc k) h = refl
found_length (b ∷ bs) k (hb, h) = ground (arith, found_length bs k h)

take-length-append : (bs cs : List ℕ) → take (length bs) (bs ++ cs) ≡ bs
take-length-append [] cs = refl
take-length-append (b ∷ bs) cs = ap (◌∷◌ b) (take-length-append bs cs)

take-min : (n : ℕ) (bs : List ℕ) → take (min (length bs) n) bs ≡ take n bs
take-min zero bs = let e : min (length bs) 0 ≡ 0 = omega arith in rw e
take-min (suc n) [] = let e : min 0 (suc n) ≡ 0 = omega arith in rw e
take-min (suc n) (b ∷ bs) =
    let e : min (suc (length bs)) (suc n) ≡ suc (min (length bs) n) = omega arith in
    rw e (ap (◌∷◌ b) (take-min n bs))

model_arr_lem :
    (n : ℕ) (name : List ℕ) → model_arr n name ≡ take n name ++ replicate (n - length name) 0
unfolding model_arr
model_arr_lem n name =
    let e : n - min (length name) n ≡ n - length name = omega arith in
    rw (take-min n name, drop-replicate (min (length name) n) n, e)

text_before_nul_lem :
    (bs : List ℕ) (k : ℕ)
    → IsNulFree bs
    → text_before_nul (bs ++ replicate k 0) ≡ unwrap_or (from_utf8 bs) []
unfolding text_before_nul
text_before_nul_lem bs k h = rw (found_length bs k h, take-length-append bs (replicate k 0))

-- A name without zero bytes comes back cut to its first 32 bytes, and as the empty text where the
-- cut leaves bytes that are not UTF-8.
pub model-new :
    (name : List ℕ) (sign : ℤ) (temp_int temp_decimal humidity : ℕ) (battery_ok : Bool)
    (channel id : ℕ)
    → IsNulFree name
    → model (new name sign temp_int temp_decimal humidity battery_ok channel id)
      ≡ (if is_utf8 (take 32 name) then take 32 name else [])
unfolding model text_before_nul new
model-new name sign temp_int temp_decimal humidity battery_ok channel id h =
    ap text_before_nul (model_arr_lem 32 name)
    ∙ text_before_nul_lem (take 32 name) (32 - length name) (IsNulFree-take 32 name h)
    ∙ checked
  where
    checked :
        unwrap_or (from_utf8 (take 32 name)) []
        ≡ (if is_utf8 (take 32 name) then take 32 name else [])
    checked = unfold from_utf8 in ground arith
