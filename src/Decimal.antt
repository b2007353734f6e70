-- ===== src/Decimal.antt =====
-- The %d of printf on the descriptors.
use Prim.Native.Nat.{◌/◌, ◌%◌}
use mqttv.Base.{ℕ, zero, suc, ◌+◌, [], ◌∷◌, if◌then◌else◌, ltb}
use mqttv.Int.{ℤ, pos, negsuc}
use mqttv.CString.{Bytes}

-- A number has fewer digits than its successor counts, so the fuel `suc n` is enough.
digits : ℕ → ℕ → Bytes → Bytes
digits zero n out = out
digits (suc fuel) n out =
    let more = digits fuel (n / 10) ((b'0' + n % 10) ∷ out) in
    if ltb n 10 then (b'0' + n) ∷ out else more

unfoldable pub decimal : ℤ → Bytes
unfolding digits
decimal (pos n) = digits (suc n) n []
decimal (negsuc n) = b'-' ∷ digits (suc (suc n)) (suc n) []
