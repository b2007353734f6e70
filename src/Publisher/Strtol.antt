-- ===== src/Publisher/Strtol.antt =====
-- strtol(s, NULL, 10) for a `long` of 64 bits.
use mqttv.Base.{ℕ, ◌+◌, ◌-◌, ◌*◌, ◌==◌, Bool, [], ◌∷◌, ltb, if◌then◌else◌, ◌&&◌, ◌||◌, not}
use Prim.Native.Nat.{◌^◌}
use mqttv.Int.{ℤ, pos, negsuc}
use mqttv.CString.{Bytes}

is_space : ℕ → Bool
is_space c = c == 32 || not (ltb c 9) && ltb c 14

is_digit : ℕ → Bool
is_digit c = not (ltb c b'0') && ltb c (b'9' + 1)

digits_value : ℕ → Bytes → ℕ
digits_value n [] = n
digits_value n (c ∷ s) =
    let rest = digits_value (n * 10 + (c - b'0')) s in if is_digit c then rest else n

abbrev long_max : ℕ
long_max = 2 ^ 63 - 1

-- Values out of range become the nearest one in range.
positive : ℕ → ℤ
positive n = pos (if ltb long_max n then long_max else n)

negative : ℕ → ℤ
negative n =
    if n == 0 then pos 0 else negsuc ((if ltb (long_max + 1) n then long_max + 1 else n) - 1)

signed : Bytes → ℤ
signed [] = pos 0
signed (c ∷ s) =
    if c == b'-'
    then negative (digits_value 0 s)
    else if c == b'+'
    then positive (digits_value 0 s)
    else positive (digits_value 0 (c ∷ s))

unfoldable pub strtol : Bytes → ℤ
unfolding signed digits_value is_digit is_space positive negative
strtol [] = pos 0
strtol (c ∷ s) = if is_space c then strtol s else signed (c ∷ s)
