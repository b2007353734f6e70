-- ===== src/CString/Values.antt =====
-- Texts that can be a field of a line: what separating and ending the line does to them.
use mqttv.Base.{ℕ, ◌≡◌, refl, sym, ◌≢◌, List, [], ◌∷◌, ◌++◌, append_assoc, All, All-append}
use mqttv.CString.{Bytes, HasNoNul}
use mqttv.CString.Split.RoundTrip.{join, IsWord, Lacks}

pub HasNoNul-append : (s t : Bytes) → HasNoNul s → HasNoNul t → HasNoNul (s ++ t)
HasNoNul-append [] t h k = k
HasNoNul-append (c ∷ s) t h k = (h.0, HasNoNul-append s t h.1 k)

pub HasNoNul-join : (d : ℕ) (ps : List Bytes) → d ≢ 0 → All HasNoNul ps → HasNoNul (join d ps)
HasNoNul-join d [] h k = tt
HasNoNul-join d (p ∷ []) h k = k.0
HasNoNul-join d (p ∷ q ∷ ps) h k =
    HasNoNul-append p (d ∷ join d (q ∷ ps)) k.0 (h, HasNoNul-join d (q ∷ ps) h k.1)

-- The last text with more bytes behind it.
abbrev pub append_last : Bytes → List Bytes → List Bytes
append_last t [] = []
append_last t (p ∷ []) = (p ++ t) ∷ []
append_last t (p ∷ q ∷ ps) = p ∷ append_last t (q ∷ ps)

pub join-append_last :
    (d : ℕ) (t p : Bytes) (ps : List Bytes) → join d (append_last t (p ∷ ps)) ≡ join d (p ∷ ps) ++ t
join-append_last d t p [] = refl
join-append_last d t p (q ∷ []) = sym (append_assoc p (d ∷ q) t)
join-append_last d t p (q ∷ r ∷ ps) =
    rw (join-append_last d t q (r ∷ ps)) (sym (append_assoc p (d ∷ join d (q ∷ r ∷ ps)) t))

append-ne-nil : (p t : Bytes) → p ≢ [] → p ++ t ≢ []
append-ne-nil [] t h e = h refl
append-ne-nil (c ∷ p) t h e = cc

pub IsWord-append_last :
    (delim t : Bytes) (ps : List Bytes)
    → Lacks delim t
    → All (IsWord delim) ps
    → All (IsWord delim) (append_last t ps)
IsWord-append_last delim t [] h k = tt
IsWord-append_last delim t (p ∷ []) h k = ((append-ne-nil p t k.0.0, All-append _ p t k.0.1 h), tt)
IsWord-append_last delim t (p ∷ q ∷ ps) h k = (k.0, IsWord-append_last delim t (q ∷ ps) h k.1)
