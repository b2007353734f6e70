-- ===== src/Forward/Delivery.antt =====
-- What a subscriber gets from a line of six values.
use mqttv.Base.{
  ℕ, suc, ◌+◌, ◌*◌, ◌≤◌, ◌<◌, ◌≡◌, refl, ap, sym, ◌∙◌, some, List, [], ◌∷◌, ◌++◌, arith, lt→ltb,
  if◌then◌else◌, get_elem?, length, length-append, append_assoc, All, All-map, Bool-cases, inl, inr,
}
use mqttv.Int.{ℤ, is_minus_one}
use mqttv.Result.{Result, ok, ◌>>=◌, store_fits, bind_congr}
use mqttv.CString.{Bytes, codes, newline, chop-append, c_string_id, HasNoNul, is_delim}
use mqttv.CString.Split.{split}
use mqttv.CString.Split.RoundTrip.{join, IsWord, split-join}
use mqttv.CString.Values.{
  HasNoNul-append, HasNoNul-join, append_last, join-append_last, IsWord-append_last,
}
use mqttv.Topics.{string_topics, level-some}
use mqttv.Net.{Net, Io, write_log, maxline}
use mqttv.Forward.{cell_at-some, topic_message, send_from, forward_line}

-- The line of a topic that a subscriber is to see.
abbrev pub topic_line : Bytes → Bytes → Bytes
topic_line prefix value = (prefix ++ value) ++ newline

abbrev pub topic_lines : List Bytes → List Bytes → List Bytes
topic_lines [] values = []
topic_lines (p ∷ ps) [] = []
topic_lines (p ∷ ps) (v ∷ vs) = topic_line p v ∷ topic_lines ps vs

topic_message_inner :
    (j : ℕ) (prefix token : Bytes)
    → j < 5
    → length prefix + length token < 49
    → topic_message j prefix token ≡ ok (topic_line prefix token)
unfolding topic_message ◌>>=◌
topic_message_inner j prefix token lt h =
    let e = length-append prefix token in
    rw
      (
        store_fits 50 prefix (omega arith),
        store_fits 50 (prefix ++ token) (omega (arith, e)),
        lt→ltb (suc (length (prefix ++ token))) 50 (omega (arith, e)),
        lt→ltb j 5 lt,
      )
      (store_fits 50 (topic_line prefix token)
        (omega (arith, e, length-append (prefix ++ token) newline)))

topic_message_last :
    (prefix value : Bytes)
    → length prefix + length value < 48
    → topic_message 5 prefix (value ++ newline) ≡ ok (topic_line prefix value)
unfolding topic_message ◌>>=◌
topic_message_last prefix value h =
    let e = length-append prefix (value ++ newline) in
    let e' = length-append value newline in
    rw
      (
        store_fits 50 prefix (omega arith),
        store_fits 50 (prefix ++ (value ++ newline)) (omega (arith, e, e')),
        lt→ltb (suc (length (prefix ++ (value ++ newline)))) 50 (omega (arith, e, e')),
      )
      (ap ok (sym (append_assoc prefix value newline)))

-- A value of a publisher's line that the broker's buffers have room for.
abbrev pub IsValue : Bytes → Type 0
IsValue v = IsWord (codes ",") v × HasNoNul v × (length v ≤ 34)

module _ (net : Net) where
  open net use {World, Reader, rio_readinitb, rio_readlineb, rio_writen, stamp}

  -- The lines of the topics whose cells are not -1, in their order, one write for each.
  unfoldable pub send_all : ℤ → List ℤ → List Bytes → World → Result World
  send_all fd [] ms world = ok world
  send_all fd (c ∷ cs) [] world = ok world
  send_all fd (c ∷ cs) (m ∷ ms) world = do
    world' ← if is_minus_one c then ok world else rio_writen fd m world
    send_all fd cs ms world'

  send_from_nil :
      (j : ℕ) (topic : List ℤ) (info : List Bytes) (fd : ℤ) (world : World)
      → send_from net [] j topic info fd world ≡ ok world
  unfolding send_from
  send_from_nil j topic info fd world = refl

  send_step :
      (prefix : Bytes) (prefixes : List Bytes) (j : ℕ) (topic : List ℤ) (info : List Bytes) (fd : ℤ)
      (world : World) (cell : ℤ) (token string : Bytes)
      → get_elem? topic j ≡ some cell
      → get_elem? info j ≡ some token
      → topic_message j prefix token ≡ ok string
      → send_from net (prefix ∷ prefixes) j topic info fd world ≡ (
          (if is_minus_one cell then ok world else rio_writen fd string world) >>= λ w.
          send_from net prefixes (suc j) topic info fd w)
  unfolding send_from ◌>>=◌
  send_step prefix prefixes j topic info fd world cell token string h k m =
      elim (Bool-cases (is_minus_one cell)) [
        | inl e ↦ rw (cell_at-some topic j cell h) (rw e)
        | inr e ↦ rw (cell_at-some topic j cell h) (rw e (rw (level-some info j token k) (rw m)))
      ]

  module _ (a b c d e f : ℤ) (v₀ v₁ v₂ v₃ v₄ v₅ : Bytes) (fd : ℤ) where
    abbrev row : List ℤ
    row = a ∷ b ∷ c ∷ d ∷ e ∷ f ∷ []

    abbrev values : List Bytes
    values = v₀ ∷ v₁ ∷ v₂ ∷ v₃ ∷ v₄ ∷ v₅ ∷ []

    abbrev tokens : List Bytes
    tokens = append_last newline values

    inner :
        (prefix : Bytes) (prefixes ms : List Bytes) (j : ℕ) (cell : ℤ) (cells : List ℤ) (v : Bytes)
        → j < 5
        → length prefix ≤ 13
        → length v ≤ 34
        → get_elem? row j ≡ some cell
        → get_elem? tokens j ≡ some v
        → ((w : World) → send_from net prefixes (suc j) row tokens fd w ≡ send_all fd cells ms w)
        → (w : World)
        → send_from net (prefix ∷ prefixes) j row tokens fd w
          ≡ send_all fd (cell ∷ cells) (topic_line prefix v ∷ ms) w
    unfolding send_all
    inner prefix prefixes ms j cell cells v lt p l h k rest w =
        send_step prefix prefixes j row tokens fd w cell v _ h k
          (topic_message_inner j prefix v lt (omega arith))
        ∙ bind_congr _ _ _ rest

    last :
        length v₅ ≤ 34
        → (w : World)
        → send_from net (codes "mem/gen: " ∷ []) 5 row tokens fd w
          ≡ send_all fd (f ∷ []) (topic_line (codes "mem/gen: ") v₅ ∷ []) w
    unfolding send_all
    last l w =
        send_step _ [] 5 row tokens fd w f (v₅ ++ newline) _ refl refl
          (topic_message_last (codes "mem/gen: ") v₅ (omega arith))
        ∙ bind_congr _ _ _ λ w'. send_from_nil 6 row tokens fd w'

    send_from-values :
        All IsValue values
        → (world : World)
        → send_from net string_topics 0 row tokens fd world
          ≡ send_all fd row (topic_lines string_topics values) world
    send_from-values h = inner _ _ _ 0 a _ v₀ (omega arith) (omega arith) h.0.2 refl refl (
        inner _ _ _ 1 b _ v₁ (omega arith) (omega arith) h.1.0.2 refl refl (
          inner _ _ _ 2 c _ v₂ (omega arith) (omega arith) h.1.1.0.2 refl refl (
            inner _ _ _ 3 d _ v₃ (omega arith) (omega arith) h.1.1.1.0.2 refl refl (
              inner _ _ _ 4 e _ v₄ (omega arith) (omega arith) h.1.1.1.1.0.2 refl refl
                (last h.1.1.1.1.1.0.2)))))

    abbrev payload : Bytes
    payload = join b',' values ++ newline

    abbrev received : Bytes → Bytes
    received publisher =
        codes "Se ha recibido ["
        ++ (join b',' values ++ (codes "] de [" ++ (publisher ++ codes "]")))

    -- A line of six values is logged and then written to the subscriber as one line for each topic
    -- of its row that is not -1: the topic's prefix, the value and a newline, in the order of the
    -- topics. Nothing else is written.
    pub forward_line-delivers :
        (publisher : Bytes) (io : Io net)
        → All IsValue values
        → length payload < 100
        → length (received publisher) + length (stamp io.world) < maxline
        → forward_line net fd row publisher payload io ≡ (
            send_all fd row (topic_lines string_topics values) io.world >>= λ world. ok (record {
              world = world;
              log = io.log ++ ((stamp io.world ++ received publisher) ++ newline) ∷ [];
            }))
    unfolding forward_line ◌>>=◌ write_log
    forward_line-delivers publisher io h short room = rw (c_string_id payload no_nul) (
        rw (store_fits 100 payload short) (
          rw (chop-append (join b',' values) b'\n') (
            rw (store_fits (maxline * 2) (received publisher) (omega arith)) (
              rw
                (store_fits maxline (stamp io.world ++ received publisher)
                  (omega (arith, length-append (stamp io.world) (received publisher))))
                (rw cut (rw (send_from-values h io.world)))))))
      where
        no_nul : HasNoNul payload
        no_nul =
            HasNoNul-append (join b',' values) newline
              (HasNoNul-join b',' values (omega arith)
                (All-map {P = IsValue} (λ v k. k.1) values h))
              ((omega arith), tt)

        cut : split 10 payload (codes ",") ≡ ok tokens
        cut = rw (sym (join-append_last b',' newline v₀ (v₁ ∷ v₂ ∷ v₃ ∷ v₄ ∷ v₅ ∷ []))) (
            split-join 10 (codes ",") b',' tokens (unfold is_delim in refl)
              (IsWord-append_last (codes ",") newline values (unfold is_delim in (refl, tt))
                (All-map {P = IsValue} (λ v k. k.0) values h))
              (omega arith))
