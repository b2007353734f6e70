-- ===== src/Rio/Fresh.antt =====
-- What becomes of the bytes that a reader has read ahead: `forward_message` of broker_server.c makes
-- its reader anew on each call.
use mqttv.Base.{
  ℕ, zero, suc, ◌+◌, ◌-◌, ◌<◌, ◌≡◌, refl, ap, ◌∙◌, ◌==◌, false, List, [], ◌∷◌, ◌++◌, arith, length,
  All,
}
use mqttv.Result.{ok, ◌>>=◌}
use mqttv.CString.{Bytes, newline}
use mqttv.Rio.{
  Answer, got, Rio, rio_read, refill, rio_readinitb, line_round, line_loop, rio_readlineb,
}
use mqttv.Rio.Lines.{all_bytes, stream}

-- A text of one line.
abbrev pub IsLine : Bytes → Type 0
IsLine = All (λ c. (c == b'\n') ≡ false)

line_loop-buffered :
    (n : ℕ) (s more : Bytes) (coming : List Answer)
    → IsLine s
    → length s < n
    → line_loop n (record { unread = s ++ (b'\n' ∷ more); coming = coming })
      ≡ ok (s ++ newline, record { unread = more; coming = coming })
unfolding line_loop line_round rio_read ◌>>=◌
line_loop-buffered zero s more coming h lt = elim lt [ ]
line_loop-buffered (suc n) [] more coming h lt = refl
line_loop-buffered (suc n) (c ∷ s) more coming h lt =
    rw h.0 (rw (line_loop-buffered n s more coming h.1 (omega arith)) refl)

-- The first round fills the buffer, and goes on as if it had been full.
line_loop-filled :
    (n : ℕ) (s more : Bytes) (coming : List Answer)
    → line_loop (suc n) (record { unread = []; coming = got (s ++ (b'\n' ∷ more)) ∷ coming })
      ≡ line_loop (suc n) (record { unread = s ++ (b'\n' ∷ more); coming = coming })
unfolding line_loop rio_read refill
line_loop-filled n [] more coming = refl
line_loop-filled n (c ∷ s) more coming = refl

pub rio_readlineb-fresh :
    (s more : Bytes) (coming : List Answer) (maxlen : ℕ)
    → IsLine s
    → length s + 1 < maxlen
    → rio_readlineb (rio_readinitb (got (s ++ (b'\n' ∷ more)) ∷ coming)) maxlen
      ≡ ok (s ++ newline, record { unread = more; coming = coming })
unfolding rio_readlineb rio_readinitb
rio_readlineb-fresh s more coming zero h lt = absurd (omega arith)
rio_readlineb-fresh s more coming (suc zero) h lt = absurd (omega arith)
rio_readlineb-fresh s more coming (suc (suc n)) h lt =
    ap
      (λ (k : ℕ). line_loop k (record { unread = []; coming = got (s ++ (b'\n' ∷ more)) ∷ coming }))
      (rounds n)
    ∙ line_loop-filled n s more coming
    ∙ line_loop-buffered (suc n) s more coming h (omega arith)
  where
    rounds : (n : ℕ) → suc (suc n) - 1 ≡ suc n
    rounds n = omega arith

-- If one answer of `read` holds a line and more behind it, a new reader returns the line, and what
-- stands behind it in the answer is in that reader's buffer only: a reader made anew for the next
-- call starts at the next answer, so that `more` is read by nobody.
pub rio_readinitb_loses :
    (s more : Bytes) (coming : List Answer) (maxlen : ℕ)
    → IsLine s
    → length s + 1 < maxlen
    → (rio' : Rio) × (rio_readlineb (rio_readinitb (got (s ++ (b'\n' ∷ more)) ∷ coming)) maxlen
        ≡ ok (s ++ newline, rio'))
      × (stream rio' ≡ more ++ all_bytes coming)
      × (stream (rio_readinitb rio'.coming) ≡ all_bytes coming)
unfolding rio_readinitb
rio_readinitb_loses s more coming maxlen h lt = (
  record { unread = more; coming = coming },
  rio_readlineb-fresh s more coming maxlen h lt,
  refl,
  refl,
)
