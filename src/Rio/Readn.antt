-- ===== src/Rio/Readn.antt =====
-- rio_readn of csapp.c and its wrapper: a number of bytes from a descriptor, without a buffer.
use mqttv.Base.{
  ℕ, zero, suc, ◌-◌, ◌≤◌, ◌<◌, ◌≡◌, refl, ap, ◌∙◌, sym, false, List, [], ◌∷◌, ◌++◌, arith, length,
  take, drop, ltb, lt→ltb, if◌then◌else◌,
}
use native.Mathlib.Decide.{dec_lt}
use mqttv.Int.{pos}
use mqttv.Result.{Result, ok, exits, ◌>>=◌}
use mqttv.CString.{Bytes}
use mqttv.Rio.{Answer, interrupted, failed, got, Rio, rio_readinitb}
use mqttv.Rio.Lines.{IsAlive, all_bytes, stream}
use mqttv.Rio.Readnb.{rio_readnb, rio_readnb_lem, take-append}

-- `while (nleft > 0)`, with the answers that are to come. A call of `read` for n bytes takes n of a
-- longer answer and leaves the others to the next call; an error makes the wrapper leave the process.
unfoldable pub rio_readn : ℕ → List Answer → Result (Bytes × List Answer)
rio_readn n [] = ok ([], [])
rio_readn zero (a ∷ coming) = ok ([], a ∷ coming)
rio_readn (suc n) (interrupted ∷ coming) = rio_readn (suc n) coming
rio_readn (suc n) (failed ∷ coming) = exits (pos 0)
rio_readn (suc n) (got [] ∷ coming) = ok ([], coming)
rio_readn (suc n) (got (c ∷ s) ∷ coming) =
    let rest = rio_readn (n - length s) coming in
    if ltb n (length s)
    then ok (take (suc n) (c ∷ s), got (drop (suc n) (c ∷ s)) ∷ coming)
    else do (t, coming') ← rest; ok (c ∷ (s ++ t), coming')

ltb_ge : (m n : ℕ) → n ≤ m → ltb m n ≡ false
ltb_ge m n h = ground arith

take_inner :
    (n : ℕ) (s t : Bytes)
    → n ≤ length s
    → (take n (s ++ t) ≡ take n s) × (drop n (s ++ t) ≡ drop n s ++ t)
take_inner zero s t le = (refl, refl)
take_inner (suc n) [] t le = absurd (omega arith)
take_inner (suc n) (c ∷ s) t le = let (p, q) = take_inner n s t (omega arith) in (ap (◌∷◌ c) p, q)

drop-IsAlive :
    (n : ℕ) (s : Bytes) (coming : List Answer)
    → n < length s
    → IsAlive coming
    → IsAlive (got (drop n s) ∷ coming)
drop-IsAlive n [] coming lt h = absurd (omega arith)
drop-IsAlive zero (c ∷ s) coming lt h = h
drop-IsAlive (suc n) (c ∷ s) coming lt h = drop-IsAlive n s coming (omega arith) h

take_nil : (n : ℕ) → (take {A = ℕ} n [] ≡ []) × (drop {A = ℕ} n [] ≡ [])
take_nil zero = (refl, refl)
take_nil (suc n) = (refl, refl)

Reads : ℕ → List Answer → Type 0
Reads n coming =
    (coming' : List Answer) × (rio_readn n coming ≡ ok (take n (all_bytes coming), coming'))
    × (all_bytes coming' ≡ drop n (all_bytes coming))
    × IsAlive coming'

rio_readn_lem : (n : ℕ) (coming : List Answer) → IsAlive coming → Reads n coming
unfolding rio_readn Reads ◌>>=◌
rio_readn_lem n [] h = ([], rw (take_nil n).0 refl, rw (take_nil n).1 refl, h)
rio_readn_lem zero (a ∷ coming) h = (a ∷ coming, refl, refl, h)
rio_readn_lem (suc n) (interrupted ∷ coming) h = rio_readn_lem (suc n) coming h
rio_readn_lem (suc n) (failed ∷ coming) h = elim h [ ]
rio_readn_lem (suc n) (got [] ∷ coming) h = elim h [ ]
rio_readn_lem (suc n) (got (c ∷ s) ∷ coming) h = elim (dec_lt n (length s)) [
  | yes lt ↦
      let (p, q) = take_inner n s (all_bytes coming) (omega arith) in
      (
        got (drop n s) ∷ coming,
        rw (lt→ltb n (length s) lt) (rw p refl),
        sym q,
        drop-IsAlive n s coming lt h,
      )
  | no ge ↦
      let (coming', e, left, alive) = rio_readn_lem (n - length s) coming h in
      let (p, q) = take-append n s (all_bytes coming) (omega arith) in
      (coming', rw (ltb_ge n (length s) (omega arith)) (rw e (rw p refl)), left ∙ sym q, alive)
]

-- On a descriptor without errors, rio_readn takes the n bytes that come next, or all of them if fewer
-- are left, and so does rio_readnb through a buffer: both return the same text, and leave the same text
-- to come.
rio_readn-rio_readnb :
    (n : ℕ) (coming : List Answer)
    → IsAlive coming
    → (s : Bytes) × (coming' : List Answer) × (rio' : Rio) × (rio_readn n coming ≡ ok (s, coming'))
      × (rio_readnb (rio_readinitb coming) n ≡ ok (s, rio'))
      × (s ≡ take n (all_bytes coming))
      × (all_bytes coming' ≡ drop n (all_bytes coming))
      × (stream rio' ≡ all_bytes coming')
unfolding Reads rio_readinitb
rio_readn-rio_readnb n coming h =
    let (coming', e, left, _) = rio_readn_lem n coming h in
    let (rio', e', left', _) = rio_readnb_lem (rio_readinitb coming) n h in
    (take n (all_bytes coming), coming', rio', e, e', refl, left, left' ∙ sym left)
