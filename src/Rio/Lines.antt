-- ===== src/Rio/Lines.antt =====
-- Which lines come out of a stream, however the system cuts the stream up.
use mqttv.Base.{
  ℕ, zero, suc, ◌-◌, ◌≡◌, refl, ◌⊎◌, inl, inr, ◌==◌, List, [], ◌∷◌, ◌++◌, if◌then◌else◌, Bool-cases,
}
use mqttv.Result.{ok, ◌>>=◌}
use mqttv.CString.{Bytes}
use mqttv.Rio.{
  Answer, interrupted, failed, got, Rio, eof, bytes, refill, rio_read, line_round, line_loop,
  rio_readlineb,
}

-- The line at the start of a text, with its newline, of n bytes at most.
abbrev pub first_line : ℕ → Bytes → Bytes
first_line zero s = []
first_line (suc n) [] = []
first_line (suc n) (c ∷ s) = if c == b'\n' then c ∷ [] else c ∷ first_line n s

-- The text behind it.
abbrev pub after_line : ℕ → Bytes → Bytes
after_line zero s = s
after_line (suc n) [] = []
after_line (suc n) (c ∷ s) = if c == b'\n' then s else after_line n s

-- No answer is an error, and the stream does not end before the list does.
abbrev pub IsAlive : List Answer → Type 0
IsAlive [] = Unit
IsAlive (interrupted ∷ coming) = IsAlive coming
IsAlive (failed ∷ coming) = ⊥
IsAlive (got [] ∷ coming) = ⊥
IsAlive (got (c ∷ s) ∷ coming) = IsAlive coming

abbrev pub all_bytes : List Answer → Bytes
all_bytes [] = []
all_bytes (interrupted ∷ coming) = all_bytes coming
all_bytes (failed ∷ coming) = []
all_bytes (got s ∷ coming) = s ++ all_bytes coming

-- What a reader has not handed out yet.
abbrev pub stream : Rio → Bytes
stream rio = rio.unread ++ all_bytes rio.coming

pub refill_lem :
    (coming : List Answer)
    → IsAlive coming
    → ((refill coming ≡ (eof, [])) × (all_bytes coming ≡ []))
      ⊎ ((c : ℕ) × (s : Bytes) × (coming' : List Answer) × (refill coming
            ≡ (bytes (c ∷ s), coming'))
          × (all_bytes coming ≡ c ∷ (s ++ all_bytes coming'))
          × IsAlive coming')
unfolding refill
refill_lem [] h = inl (refl, refl)
refill_lem (interrupted ∷ coming) h = refill_lem coming h
refill_lem (failed ∷ coming) h = elim h [ ]
refill_lem (got [] ∷ coming) h = elim h [ ]
refill_lem (got (c ∷ s) ∷ coming) h = inr (c, s, coming, refl, refl, h)

-- One byte is read, or the stream is at its end.
rio_read-byte :
    (rio : Rio)
    → IsAlive rio.coming
    → ((rio_read 1 rio.unread rio.coming ≡ (eof, record { unread = []; coming = [] }))
        × (stream rio ≡ []))
      ⊎ ((c : ℕ) × (rio' : Rio) × (rio_read 1 rio.unread rio.coming ≡ (bytes (c ∷ []), rio'))
          × (stream rio ≡ c ∷ stream rio')
          × IsAlive rio'.coming)
unfolding rio_read
rio_read-byte rio h = by_unread rio.unread rio.coming h
  where
    by_unread :
        (unread : Bytes) (coming : List Answer)
        → IsAlive coming
        → ((rio_read 1 unread coming ≡ (eof, record { unread = []; coming = [] }))
            × (unread ++ all_bytes coming ≡ []))
          ⊎ ((c : ℕ) × (rio' : Rio) × (rio_read 1 unread coming ≡ (bytes (c ∷ []), rio'))
              × (unread ++ all_bytes coming ≡ c ∷ stream rio')
              × IsAlive rio'.coming)
    by_unread (c ∷ s) coming h = inr (c, record { unread = s; coming = coming }, refl, refl, h)
    by_unread [] coming h = elim (refill_lem coming h) [
      | inl (e, p) ↦ inl (rw e refl, p)
      | inr (c, s, coming', e, p, k) ↦
          inr (c, record { unread = s; coming = coming' }, rw e refl, p, k)
    ]

Reads : ℕ → Rio → Type 0
Reads n rio =
    (rio' : Rio) × (line_loop n rio ≡ ok (first_line n (stream rio), rio'))
    × (stream rio' ≡ after_line n (stream rio))
    × IsAlive rio'.coming

line_loop_lem : (n : ℕ) (rio : Rio) → IsAlive rio.coming → Reads n rio
unfolding line_loop line_round Reads ◌>>=◌
line_loop_lem zero rio h = (rio, refl, refl, h)
line_loop_lem (suc n) rio h = elim (rio_read-byte rio h) [
  | inl (e, p) ↦ (record { unread = []; coming = [] }, rw (e, p) refl, rw p refl, tt)
  | inr (c, rio₁, e, p, k) ↦ elim (Bool-cases (c == b'\n')) [
    | inl q ↦ (rio₁, rw (e, p) (rw q refl), rw p (rw q refl), k)
    | inr q ↦
        let (rio₂, e₂, p₂, k₂) = line_loop_lem n rio₁ k in
        (rio₂, rw (e, p) (rw q (rw e₂ refl)), rw p (rw q p₂), k₂)
  ]
]

-- On a connection without errors rio_readlineb returns the line at the start of what was not handed
-- out yet, of less than maxlen bytes, or nothing at the end of the stream, and the text behind the
-- line is not handed out yet then: the lines do not depend on how `read` cuts the stream up, nor on
-- interruptions.
pub rio_readlineb_lem :
    (rio : Rio) (maxlen : ℕ)
    → IsAlive rio.coming
    → (rio' : Rio) × (rio_readlineb rio maxlen ≡ ok (first_line (maxlen - 1) (stream rio), rio'))
      × (stream rio' ≡ after_line (maxlen - 1) (stream rio))
      × IsAlive rio'.coming
unfolding rio_readlineb Reads
rio_readlineb_lem rio maxlen h = line_loop_lem (maxlen - 1) rio h
