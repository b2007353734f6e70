-- ===== src/Result.antt =====
-- How a piece of C code ends: with a value, with undefined behaviour, or by leaving the process.
pub mod Ensures
use mqttv.Base.{
  ℕ, ◌≡◌, sym, ap, ◌∙◌, ◌≤◌, ◌<◌, arith, lt→ltb, refl, Bool, true, false, ltb, length, List,
  if◌then◌else◌,
}
use mqttv.Int.{ℤ}

-- `overrun` is an access outside of an array, `unset` a use of a value that nothing has written
-- and `null` a null pointer given to a string function.
pub data Fault : Type 0 where
  overrun unset null : Fault

pub data Result {ℓ} (A : Type ℓ) : Type ℓ where
  ok : A → Result A
  fault : Fault → Result A
  exits : ℤ → Result A

-- The code goes on only where the access lies inside of the array.
abbrev pub guard : (inside : Bool) (otherwise : Fault) → Result (Unit {0})
guard false e = fault e
guard true e = ok tt

infixl 5 ◌>>=◌ ◌>>◌
unfoldable pub ◌>>=◌ {ℓ κ} : {A : Type ℓ} {B : Type κ} → Result A → (A → Result B) → Result B
exits c >>= f = exits c
fault e >>= f = fault e
ok a >>= f = f a

-- A statement without a value, and the rest of the code.
abbrev pub ◌>>◌ {κ} : {B : Type κ} → Result (Unit {0}) → Result B → Result B
passed >> rest = passed >>= λ u. rest

pub guard_passed : (b : Bool) (e : Fault) (u : Unit {0}) → guard b e ≡ ok u → b ≡ true
guard_passed true e u h = refl
guard_passed false e u h = cc

-- A text and its NUL are put into an array of `cap` bytes (strcpy, sprintf, the result of strcat).
abbrev pub store : ℕ → List ℕ → Result (List ℕ)
store cap s = if ltb (length s) cap then ok s else fault overrun

pub store_fits : (cap : ℕ) (s : List ℕ) → length s < cap → store cap s ≡ ok s
store_fits cap s h = rw (lt→ltb (length s) cap h)

pub store_overruns : (cap : ℕ) (s : List ℕ) → cap ≤ length s → store cap s ≡ fault overrun
store_overruns cap s h = ground arith

-- A result that the code reached without undefined behaviour and without leaving the process.
pub >>=-eq-ok {ℓ κ} :
    {B : Type ℓ} {A : Type κ} (first : Result A) (rest : A → Result B) {result : B}
    → (first >>= rest) ≡ ok result
    → (passed : A) × (first ≡ ok passed) × (rest passed ≡ ok result)
unfolding ◌>>=◌
>>=-eq-ok (exits c) rest h = cc
>>=-eq-ok (fault e) rest h = cc
>>=-eq-ok (ok passed) rest h = (passed, refl, h)

pub bind_congr {ℓ κ} :
    {A : Type ℓ} {B : Type κ} (m : Result A) (f g : A → Result B)
    → ((a : A) → f a ≡ g a)
    → (m >>= f) ≡ (m >>= g)
unfolding ◌>>=◌
bind_congr (ok a) f g h = h a
bind_congr (fault e) f g h = refl
bind_congr (exits c) f g h = refl

pub bind_assoc {ℓ κ μ} :
    {A : Type ℓ} {B : Type κ} {C : Type μ} (m : Result A) (f : A → Result B) (g : B → Result C)
    → (m >>= f >>= g) ≡ (m >>= λ a. f a >>= g)
unfolding ◌>>=◌
bind_assoc (ok a) f g = refl
bind_assoc (fault e) f g = refl
bind_assoc (exits c) f g = refl

-- Two calls in front of the rest of the code, of which the outcome together is known.
pub bind_through {ℓ κ μ} :
    {A : Type ℓ} {B : Type κ} {C : Type μ} (m : Result A) (f : A → Result B) (r : Result B)
    (g : B → Result C)
    → (m >>= f) ≡ r
    → (m >>= λ a. f a >>= g) ≡ (r >>= g)
bind_through m f r g e = sym (bind_assoc m f g) ∙ ap (λ t. t >>= g) e
