-- ===== src/Rio/Readnb.antt =====
-- rio_readnb of csapp.c and its wrapper: a number of bytes from the buffered reader.
use mqttv.Base.{
  ℕ, zero, suc, ◌-◌, ◌≤◌, ◌<◌, ◌≡◌, refl, ap, ◌∙◌, sym, ◌⊎◌, inl, inr, List, [], ◌∷◌, ◌++◌, arith,
  length, take, drop, append_assoc,
}
use mqttv.Int.{pos}
use mqttv.Result.{Result, ok, exits, ◌>>=◌}
use mqttv.CString.{Bytes}
use mqttv.Rio.{Answer, Rio, Status, eof, error, bytes, rio_read}
use mqttv.Rio.Lines.{IsAlive, all_bytes, stream, refill_lem}
use mqttv.Rio.Writen.{take-drop}

-- What a round does with the answer to its call of rio_read: an error makes the wrapper leave the
-- process.
unfoldable pub bytes_round :
    (ℕ → Rio → Result (Bytes × Rio)) → ℕ → Status → Rio → Result (Bytes × Rio)
bytes_round rest nleft eof rio = ok ([], rio)
bytes_round rest nleft error rio = exits (pos 0)
bytes_round rest nleft (bytes s) rio = do (t, rio') ← rest (nleft - length s) rio; ok (s ++ t, rio')

-- `while (nleft > 0)`, with fuel
unfoldable pub bytes_loop : ℕ → ℕ → Rio → Result (Bytes × Rio)
bytes_loop zero nleft rio = ok ([], rio)
bytes_loop (suc k) zero rio = ok ([], rio)
bytes_loop (suc k) (suc n) rio =
    let r = rio_read (suc n) rio.unread rio.coming in bytes_round (bytes_loop k) (suc n) r.0 r.1

-- Each round takes a byte at least, so n rounds are enough.
unfoldable pub rio_readnb : Rio → ℕ → Result (Bytes × Rio)
rio_readnb rio n = bytes_loop n n rio

pub take-append :
    (n : ℕ) (s t : Bytes)
    → length s ≤ n
    → (take n (s ++ t) ≡ s ++ take (n - length s) t) × (drop n (s ++ t) ≡ drop (n - length s) t)
take-append n [] t le = let e : n - 0 ≡ n = omega arith in rw e (refl, refl)
take-append zero (c ∷ s) t le = absurd (omega arith)
take-append (suc n) (c ∷ s) t le =
    let (p, q) = take-append n s t (omega arith) in
    let e : suc n - length (c ∷ s) ≡ n - length s = omega arith in rw e (ap (◌∷◌ c) p, q)

length-take-le : (n : ℕ) (s : Bytes) → length (take n s) ≤ n
length-take-le zero s = omega arith
length-take-le (suc n) [] = omega arith
length-take-le (suc n) (c ∷ s) = omega (arith, length-take-le n s)

-- Between one and suc n bytes are read, or the stream is at its end.
Chunk : ℕ → Bytes → List Answer → Type 0
Chunk n unread coming =
    ((rio_read (suc n) unread coming ≡ (eof, record { unread = []; coming = [] }))
      × (unread ++ all_bytes coming ≡ []))
    ⊎ ((s : Bytes) × (rio' : Rio) × (rio_read (suc n) unread coming ≡ (bytes s, rio'))
        × (0 < length s)
        × (length s ≤ suc n)
        × (unread ++ all_bytes coming ≡ s ++ stream rio')
        × IsAlive rio'.coming)

buffered :
    (n c : ℕ) (s : Bytes) (coming : List Answer)
    → (c ∷ s) ++ all_bytes coming
      ≡ take (suc n) (c ∷ s) ++ (drop (suc n) (c ∷ s) ++ all_bytes coming)
buffered n c s coming =
    ap (λ (t : Bytes). t ++ all_bytes coming) (sym (take-drop (suc n) (c ∷ s)))
    ∙ append_assoc (take (suc n) (c ∷ s)) (drop (suc n) (c ∷ s)) (all_bytes coming)

rio_read-Chunk :
    (n : ℕ) (unread : Bytes) (coming : List Answer) → IsAlive coming → Chunk n unread coming
unfolding Chunk rio_read
rio_read-Chunk n (c ∷ s) coming h = inr (
  take (suc n) (c ∷ s),
  record { unread = drop (suc n) (c ∷ s); coming = coming },
  refl,
  omega arith,
  length-take-le (suc n) (c ∷ s),
  buffered n c s coming,
  h,
)
rio_read-Chunk n [] coming h = elim (refill_lem coming h) [
  | inl (e, p) ↦ inl (rw e refl, p)
  | inr (c, s, coming', e, p, k) ↦ inr (
    take (suc n) (c ∷ s),
    record { unread = drop (suc n) (c ∷ s); coming = coming' },
    rw e refl,
    omega arith,
    length-take-le (suc n) (c ∷ s),
    p ∙ buffered n c s coming',
    k,
  )
]

take_nil : (n : ℕ) → (take {A = ℕ} n [] ≡ []) × (drop {A = ℕ} n [] ≡ [])
take_nil zero = (refl, refl)
take_nil (suc n) = (refl, refl)

bytes_loop_lem :
    (k n : ℕ) (rio : Rio)
    → n ≤ k
    → IsAlive rio.coming
    → (rio' : Rio) × (bytes_loop k n rio ≡ ok (take n (stream rio), rio'))
      × (stream rio' ≡ drop n (stream rio))
      × IsAlive rio'.coming
unfolding bytes_loop bytes_round ◌>>=◌ Chunk
bytes_loop_lem zero zero rio le h = (rio, refl, refl, h)
bytes_loop_lem zero (suc n) rio le h = elim le [ ]
bytes_loop_lem (suc k) zero rio le h = (rio, refl, refl, h)
bytes_loop_lem (suc k) (suc n) rio le h = elim (rio_read-Chunk n rio.unread rio.coming h) [
  | inl (e, p) ↦ (record { unread = []; coming = [] }, rw (e, p) refl, rw p refl, tt)
  | inr (s, rio₁, e, pos_s, le_s, p, alive) ↦
      let (rio₂, e₂, p₂, alive₂) = bytes_loop_lem k (suc n - length s) rio₁ (omega arith) alive in
      let (t, d) = take-append (suc n) s (stream rio₁) le_s in
      (rio₂, rw (e, p) (rw e₂ (rw t refl)), rw p (p₂ ∙ sym d), alive₂)
]

-- On a connection without errors rio_readnb returns the n bytes that come next, or all of them if
-- fewer are left, however `read` cuts the stream up, and exactly the bytes behind them are not handed
-- out yet then.
pub rio_readnb_lem :
    (rio : Rio) (n : ℕ)
    → IsAlive rio.coming
    → (rio' : Rio) × (rio_readnb rio n ≡ ok (take n (stream rio), rio'))
      × (stream rio' ≡ drop n (stream rio))
      × IsAlive rio'.coming
unfolding rio_readnb
rio_readnb_lem rio n h = bytes_loop_lem n n rio (omega arith) h
