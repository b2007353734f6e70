-- ===== src/Journey/Session/Shown.antt =====
-- The subscriber's end of a connection: which lines it reads of the texts that were written, however
-- the system cuts them up.
use mqttv.Base.{
  ◌<◌, ◌≡◌, refl, sym, subst, ap, ◌∙◌, List, [], ◌∷◌, ◌++◌, arith, append_assoc, length, All, map,
}
use mqttv.Int.{ℤ}
use mqttv.Result.{ok, ◌>>=◌}
use mqttv.CString.{Bytes, newline, c_string, c_string_id, HasNoNul}
use mqttv.CString.Values.{HasNoNul-append}
use mqttv.Net.{maxline}
use mqttv.Rio.{Answer}
use mqttv.Rio.Fresh.{IsLine}
use mqttv.Rio.Lines.{IsAlive, all_bytes, rio_readlineb_lem}
use mqttv.Rio.Connections.{
  Sockets, Reader, sockets, read_line, put_coming, coming_put, read_line_lem,
}
use mqttv.Subscriber.Listen.{Reads, done, more}

abbrev pub flat : List Bytes → Bytes
flat [] = []
flat (m ∷ ms) = m ++ flat ms

-- A text that is one line, without NULs, and fits in the buffer.
abbrev pub IsShown : Bytes → Type 0
IsShown m = (s : Bytes) × (m ≡ s ++ newline) × IsLine s × (length s < 8191) × HasNoNul s

-- Answers that hold all of the texts.
abbrev pub Carry : List Answer → List Bytes → Type 0
Carry answers ms = IsAlive answers × (all_bytes answers ≡ flat ms)

-- Such texts are printed as they are.
pub c_string-IsShown : (ms : List Bytes) → All IsShown ms → map c_string ms ≡ ms
c_string-IsShown [] h = refl
c_string-IsShown (m ∷ ms) ((s, p, _, _, no_nul), h) =
    rw
      (c_string_id m
        (subst HasNoNul (sym p) (HasNoNul-append s newline no_nul ((omega arith), tt))))
      (ap (◌∷◌ m) (c_string-IsShown ms h))

module _ (now : Bytes) where
  end_of_stream :
      (fd : ℤ) (unread : Bytes) (w : Sockets)
      → IsAlive (w.coming fd)
      → unread ++ all_bytes (w.coming fd) ≡ []
      → (rio' : Reader) × (w' : Sockets) × (read_line (fd, unread) maxline w ≡ ok ([], rio', w'))
        × (w'.sent ≡ w.sent)
  unfolding ◌>>=◌
  end_of_stream fd unread w alive e =
      let (rio', p, _, _) =
        rio_readlineb_lem (record { unread = unread; coming = w.coming fd }) maxline alive in
      ((fd, rio'.unread), put_coming fd rio'.coming w, rw p (rw e refl), refl)

  Reads-more :
      (rio rio' : Reader) (w w' w'' : Sockets) (s : Bytes) (lines : List Bytes)
      → read_line rio maxline w ≡ ok (s ++ newline, rio', w')
      → Reads (sockets now) rio' w' lines w''
      → Reads (sockets now) rio w ((s ++ newline) ∷ lines) w''
  Reads-more rio rio' w w' w'' [] lines e r = more e r
  Reads-more rio rio' w w' w'' (c ∷ s) lines e r = more e r

  -- The lines that come out are the texts.
  pub Carry-Reads :
      (ms : List Bytes) (fd : ℤ) (unread : Bytes) (w : Sockets)
      → All IsShown ms
      → IsAlive (w.coming fd)
      → unread ++ all_bytes (w.coming fd) ≡ flat ms
      → (w' : Sockets) × Reads (sockets now) (fd, unread) w ms w'
  Carry-Reads [] fd unread w h alive e =
      let (rio', w', p, _) = end_of_stream fd unread w alive e in (w', done p)
  Carry-Reads (m ∷ ms) fd unread w ((s, p, line, short, _), h) alive e =
      let (unread', answers, q, alive', left) =
        read_line_lem fd unread w s (flat ms) alive (e ∙ rw p (append_assoc s newline (flat ms)))
          line short in
      let w₁ = put_coming fd answers w in
      let same = coming_put fd answers w in
      let (w', r) =
        Carry-Reads ms fd unread' w₁ h (subst IsAlive (sym same) alive') (rw same left) in
      (w', rw p (Reads-more (fd, unread) (fd, unread') w w₁ w' s ms q r))
