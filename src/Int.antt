-- ===== src/Int.antt =====
-- The C type `int` as far as the program uses it: descriptors, topic cells and indices, with -1.
-- The values that the program makes stay far inside 32 bits, so nothing wraps.
use mqttv.Base.{ℕ, zero, suc, Bool, true, false}

-- `negsuc n` is -(n + 1).
pub data ℤ : Type 0 where
  pos : ℕ → ℤ
  negsuc : ℕ → ℤ

abbrev pub minus_one : ℤ
minus_one = negsuc 0

abbrev pub is_negative : ℤ → Bool
is_negative (pos n) = false
is_negative (negsuc n) = true

abbrev pub is_minus_one : ℤ → Bool
is_minus_one (negsuc zero) = true
is_minus_one (negsuc (suc n)) = false
is_minus_one (pos n) = false
