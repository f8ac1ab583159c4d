-- ===== src/Sensor/Equal.antt =====
-- `equal` of src/decoder.rs is an equivalence: it compares four fields.
use esp_rf_ook.Prelude.{◌≡◌, refl, ◌↔◌, true, arith, ℤ, pos, negsuc, int_eq}
use esp_rf_ook.Sensor.{SensorData, equal}

int_eq_iff : (a b : ℤ) → (int_eq a b ≡ true) ↔ (a ≡ b)
int_eq_iff (pos a) (pos b) = ground arith
int_eq_iff (pos a) (negsuc b) = ground arith
int_eq_iff (negsuc a) (pos b) = ground arith
int_eq_iff (negsuc a) (negsuc b) = ground arith

-- `equal` holds exactly where the four fields that it compares agree.
pub equal_iff :
    (a b : SensorData)
    → (equal a b ≡ true) ↔ (
        (a.sign ≡ b.sign)
        × (a.temp_int ≡ b.temp_int)
        × (a.temp_decimal ≡ b.temp_decimal)
        × (a.humidity ≡ b.humidity))
unfolding equal
equal_iff a b = ground (arith, int_eq_iff a.sign b.sign)

pub equal_refl : (a : SensorData) → equal a a ≡ true
equal_refl a = (equal_iff a a).1 (refl, refl, refl, refl)

-- Two measurements that equal a third equal one another.
pub equal_join : (a b c : SensorData) → equal a b ≡ true → equal a c ≡ true → equal b c ≡ true
equal_join a b c p q = (equal_iff b c).1 (ground (arith, (equal_iff a b).0 p, (equal_iff a c).0 q))

pub equal_sym : (a b : SensorData) → equal a b ≡ true → equal b a ≡ true
equal_sym a b h = equal_join a b a h (equal_refl a)

pub equal_trans : (a b c : SensorData) → equal a b ≡ true → equal b c ≡ true → equal a c ≡ true
equal_trans a b c h k = equal_join b a c (equal_sym a b h) k
