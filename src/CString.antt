-- ===== src/CString.antt =====
-- C strings as the program uses them: the bytes in front of the NUL, as a list of numbers. What is
-- modelled of <string.h> is what the sources call: strcmp, strlen, strcpy, strcat and strtok.
pub mod Split
pub mod Values
use Prim.Native.Char.{code}
use Prim.Native.String.{String}
use mqttv.Base.{
  ℕ, ◌≡◌, refl, ap, ◌⊎◌, inl, inr, ◌≢◌, ◌↔◌, Bool, true, false, ◌&&◌, ◌||◌, List, [], ◌∷◌, ◌++◌,
  arith, ◌==◌, if◌then◌else◌, Bool-cases,
}
use mqttv.Result.{Result, ok, fault, overrun}

abbrev pub Bytes : Type 0
Bytes = List ℕ

-- The bytes of an ASCII literal.
abbrev pub codes : String → Bytes
codes String.[] = []
codes (String.◌∷◌ c s) = code c ∷ codes s

abbrev pub newline : Bytes
newline = b'\n' ∷ []

-- What a string function sees of a buffer: the bytes up to the first NUL.
unfoldable pub c_string : Bytes → Bytes
c_string [] = []
c_string (c ∷ s) = if c == 0 then [] else c ∷ c_string s

-- strcmp(s, t) == 0
unfoldable pub str_eq : Bytes → Bytes → Bool
str_eq [] [] = true
str_eq [] (d ∷ t) = false
str_eq (c ∷ s) [] = false
str_eq (c ∷ s) (d ∷ t) = c == d && str_eq s t

-- The string without its last byte.
unfoldable pub drop_last : ℕ → Bytes → Bytes
drop_last c [] = []
drop_last c (d ∷ s) = c ∷ drop_last d s

-- buf[strlen(buf)-1] = '\0': of an empty string this writes in front of the buffer.
unfoldable pub chop : Bytes → Result Bytes
unfolding drop_last
chop [] = fault overrun
chop (c ∷ s) = ok (drop_last c s)

-- The byte stands in the set of delimiters that strtok is given.
unfoldable pub is_delim : Bytes → ℕ → Bool
is_delim [] c = false
is_delim (d ∷ delim) c = c == d || is_delim delim c

pub str_eq_refl : (s : Bytes) → str_eq s s ≡ true
unfolding str_eq
str_eq_refl [] = refl
str_eq_refl (c ∷ s) = ground (arith, str_eq_refl s)

pub str_eq_sound : (s t : Bytes) → str_eq s t ≡ true → s ≡ t
unfolding str_eq
str_eq_sound [] [] h = refl
str_eq_sound [] (d ∷ t) h = cc
str_eq_sound (c ∷ s) [] h = cc
str_eq_sound (c ∷ s) (d ∷ t) h = ground (arith, str_eq_sound s t)

-- `strcmp` answers 0 exactly on equal strings.
pub str_eq_iff : (s t : Bytes) → (str_eq s t ≡ true) ↔ (s ≡ t)
str_eq_iff s t = (str_eq_sound s t, λ e. rw e (str_eq_refl t))

pub str_eq_ne : (s t : Bytes) → s ≢ t → str_eq s t ≡ false
str_eq_ne s t h = elim (Bool-cases (str_eq s t)) [
  | inl e ↦ absurd (h (str_eq_sound s t e))
  | inr e ↦ e
]

-- Dropping the last byte of a text that ends in `c` gives the text before it.
pub chop-append : (s : Bytes) (c : ℕ) → chop (s ++ c ∷ []) ≡ ok s
unfolding chop
chop-append [] c = refl
chop-append (d ∷ s) c = ap ok (drop_last-append d s c)
  where
    drop_last-append : (d : ℕ) (s : Bytes) (c : ℕ) → drop_last d (s ++ c ∷ []) ≡ d ∷ s
    drop_last-append d [] c = refl
    drop_last-append d (e ∷ s) c = ap (◌∷◌ d) (drop_last-append e s c)

-- No byte of the text is NUL.
abbrev pub HasNoNul : Bytes → Type 0
HasNoNul [] = Unit
HasNoNul (c ∷ s) = (c ≢ 0) × HasNoNul s

pub c_string_id : (s : Bytes) → HasNoNul s → c_string s ≡ s
unfolding c_string
c_string_id [] h = refl
c_string_id (c ∷ s) h = ground (arith, c_string_id s h.1)
