-- ===== src/Result/Ensures.antt =====
-- Postconditions of code that returns: one rule for each way to build a result.
use mqttv.Base.{◌≡◌, refl, subst, Bool, true, false, if◌then◌else◌}
use mqttv.Int.{ℤ}
use mqttv.Result.{Result, Fault, ok, fault, exits, ◌>>=◌}

-- If the code returns a value, the value has the property.
pub record Ensures {ℓ κ} {A : Type ℓ} (P : A → Type κ) (r : Result A) : Type (ℓ ⊔ κ) where
  pub at : (a : A) → r ≡ ok a → P a

pub ok_injective {ℓ} : {A : Type ℓ} (a b : A) → ok a ≡ ok b → a ≡ b
ok_injective a b e = cc

module _ {ℓ κ} {A : Type ℓ} {P : A → Type κ} where
  pub Ensures-ok : (a : A) → P a → Ensures P (ok a)
  Ensures-ok a p = record { at = λ b e. subst P (ok_injective a b e) p }

  pub Ensures-fault : (e : Fault) → Ensures P (fault e)
  Ensures-fault e = record { at = λ b h. cc }

  pub Ensures-exits : (c : ℤ) → Ensures P (exits c)
  Ensures-exits c = record { at = λ b h. cc }

  pub Ensures-if :
      (b : Bool) (r s : Result A)
      → (b ≡ true → Ensures P r)
      → (b ≡ false → Ensures P s)
      → Ensures P (if b then r else s)
  Ensures-if true r s h k = h refl
  Ensures-if false r s h k = k refl

module _ {ℓ κ μ} {A : Type ℓ} {B : Type μ} {P : B → Type κ} where
  -- The rest of the block may use what the first step returned.
  pub Ensures-bind :
      (m : Result A) (f : A → Result B)
      → ((a : A) → m ≡ ok a → Ensures P (f a))
      → Ensures P (m >>= f)
  unfolding ◌>>=◌
  Ensures-bind (ok a) f h = h a refl
  Ensures-bind (fault e) f h = Ensures-fault e
  Ensures-bind (exits c) f h = Ensures-exits c
