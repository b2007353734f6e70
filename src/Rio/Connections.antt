-- ===== src/Rio/Connections.antt =====
-- The interface `Net` over the reader of Rio: the connections of a process with the answers that their
-- descriptors are going to give, and what was written to them. Writes are taken as a whole.
use mqttv.Base.{
  ℕ, zero, suc, ◌<◌, ◌≡◌, refl, ap, ◌∙◌, Bool, true, false, ◌==◌, List, [], ◌∷◌, ◌++◌, arith,
  if◌then◌else◌, length, map,
}
use mqttv.Int.{ℤ, pos, negsuc}
use mqttv.Result.{Result, ok, ◌>>=◌}
use mqttv.CString.{Bytes, newline}
use mqttv.Net.{Net, maxline}
use mqttv.Rio.{Answer, rio_readlineb}
use mqttv.Rio.Lines.{IsAlive, all_bytes, first_line, after_line, rio_readlineb_lem}
use mqttv.Rio.Fresh.{IsLine}

abbrev pub same_fd : ℤ → ℤ → Bool
same_fd (pos m) (pos n) = m == n
same_fd (negsuc m) (negsuc n) = m == n
same_fd (pos m) (negsuc n) = false
same_fd (negsuc m) (pos n) = false

pub same_fd_refl : (fd : ℤ) → same_fd fd fd ≡ true
same_fd_refl (pos n) = ground arith
same_fd_refl (negsuc n) = ground arith

pub record Sockets : Type 0 where
  pub coming : ℤ → List Answer
  pub sent : List (ℤ × Bytes)

-- What is still to come on one descriptor.
abbrev pub put_coming : ℤ → List Answer → Sockets → Sockets
put_coming fd answers w = record w {
  coming = λ other. if same_fd fd other then answers else w.coming other;
}

-- What is written to a descriptor.
abbrev pub written : ℤ → List Bytes → Sockets → Sockets
written fd ms w = record w { sent = w.sent ++ map (λ m. (fd, m)) ms }

-- A rio_t: the descriptor, and the bytes that were read ahead.
abbrev pub Reader : Type 0
Reader = ℤ × Bytes

-- Rio_readlineb: the line, the bytes that are left in the buffer, and the answers that are left.
abbrev pub read_line : Reader → ℕ → Sockets → Result (Bytes × Reader × Sockets)
read_line (fd, unread) maxlen w = do
  (line, rio) ← rio_readlineb (record { unread = unread; coming = w.coming fd }) maxlen
  ok (line, (fd, rio.unread), put_coming fd rio.coming w)

abbrev pub sockets : Bytes → Net
sockets now = record {
  World = Sockets;
  Reader = Reader;
  rio_readinitb = λ fd. (fd, []);
  rio_readlineb = read_line;
  rio_writen = λ fd s w. ok (record w { sent = w.sent ++ (fd, s) ∷ [] });
  stamp = λ w. now;
}

first_line-append :
    (n : ℕ) (s more : Bytes)
    → IsLine s
    → length s < n
    → (first_line n (s ++ (b'\n' ∷ more)) ≡ s ++ newline)
      × (after_line n (s ++ (b'\n' ∷ more)) ≡ more)
first_line-append zero s more h lt = absurd (omega arith)
first_line-append (suc n) [] more h lt = (refl, refl)
first_line-append (suc n) (c ∷ s) more h lt =
    let (p, q) = first_line-append n s more h.1 (omega arith) in rw h.0 (ap (◌∷◌ c) p, q)

-- The next line of a connection without errors, in a buffer of 8192 bytes.
pub read_line_lem :
    (fd : ℤ) (unread : Bytes) (w : Sockets) (s more : Bytes)
    → IsAlive (w.coming fd)
    → unread ++ all_bytes (w.coming fd) ≡ s ++ (b'\n' ∷ more)
    → IsLine s
    → length s < 8191
    → (unread' : Bytes) × (answers : List Answer) × (read_line (fd, unread) maxline w
        ≡ ok (s ++ newline, (fd, unread'), put_coming fd answers w))
      × IsAlive answers
      × (unread' ++ all_bytes answers ≡ more)
unfolding ◌>>=◌
read_line_lem fd unread w s more alive e line lt =
    let (rio', p, q, alive') =
      rio_readlineb_lem (record { unread = unread; coming = w.coming fd }) maxline alive in
    let (first, after) = first_line-append 8191 s more line lt in
    (
      rio'.unread,
      rio'.coming,
      rw p (rw e (rw first refl)),
      alive',
      q ∙ ap (after_line 8191) e ∙ after,
    )

-- Reading goes on from what the read before has left.
pub coming_put :
    (fd : ℤ) (answers : List Answer) (w : Sockets) → (put_coming fd answers w).coming fd ≡ answers
coming_put fd answers w = rw (same_fd_refl fd) refl
