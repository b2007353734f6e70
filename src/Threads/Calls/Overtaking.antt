-- ===== src/Threads/Calls/Overtaking.antt =====
-- Two threads of the broker that serve the same subscription at the same time.
use mqttv.Base.{
  ℕ, suc, ◌<◌, ◌≡◌, refl, subst, some, false, List, [], ◌∷◌, ◌++◌, append_assoc, length,
}
use mqttv.Result.{ok}
use mqttv.Result.Ensures.{Ensures, Ensures-ok, Ensures-bind}
use mqttv.CString.{Bytes, codes, newline, str_eq}
use mqttv.Topics.{string_topics}
use mqttv.Net.{Io, maxline}
use mqttv.Broker.{Broker}
use mqttv.Forward.{cell_at, forward_line}
use mqttv.Rio.{Answer, got}
use mqttv.Rio.Fresh.{IsLine}
use mqttv.Rio.Connections.{sockets, read_line, put_coming, coming_put, written}
use mqttv.Threads.Calls.{
  Route, Spot, at, reading, sending, Call, chooses, reads, Calls, here, next, choose, receive,
}
use mqttv.Threads.Calls.Messages.{messages, made_of}
use mqttv.Threads.Calls.Lines.{
  logged, write_log-logged, read_line-fresh, Forwards, forwards, made_of-Forwards,
}
use mqttv.Threads.Calls.Entries.{choose_ok}
use mqttv.Threads.Calls.Alone.{Calls-trans, send_from-Calls}

-- The line of a text with its newline is not empty.
line_parts : (l : Bytes) → (c : ℕ) × (line : Bytes) × (l ++ newline ≡ c ∷ line)
line_parts [] = (b'\n', [], refl)
line_parts (c ∷ l) = (c, l ++ newline, refl)

module _ (now : Bytes) where
  choose-logged :
      (b : Broker) (i : ℕ) (publisher : Bytes) (io : Io (sockets now))
      → Ensures
          (λ r.
            (text : Bytes) × ((io₂ : Io (sockets now))
              → choose (sockets now) b i publisher io₂ ≡ ok (r.0, logged now text io₂)))
          (choose (sockets now) b i publisher io)
  unfolding choose
  choose-logged b i publisher io = Ensures-bind _ _ λ name e₁. Ensures-bind _ _ λ topic e₂.
      Ensures-bind _ _ λ pub_idx e₃. Ensures-bind _ _ λ fd_pub e₄. Ensures-bind _ _ λ suscriber e₅.
        Ensures-bind _ _ λ sus_idx e₆. Ensures-bind _ _ λ fd_sus e₇. Ensures-bind _ _ λ msg e₈.
          Ensures-bind _ _ λ io' e₉. Ensures-ok _ (
            let (text, any) = (write_log-logged now msg io).at io' e₉ in
            (
              text,
              λ io₂.
                  choose_ok (sockets now) b i publisher io₂ _ name topic pub_idx fd_pub suscriber
                    sus_idx fd_sus msg e₁ e₂ e₃ e₄ e₅ e₆ e₇ e₈ (any io₂),
            ))

  -- The thread between xs and ys comes to the subscription of entry i.
  choose-Call :
      (xs ys : List Spot) (b : Broker) (i : ℕ) (publisher : Bytes) (route : Route)
      (io : Io (sockets now)) (taken : List (Route × Bytes)) (text : Bytes)
      → cell_at b.client_sus_list i ≡ ok (some publisher)
      → str_eq publisher (codes "NONE") ≡ false
      → ((io₂ : Io (sockets now))
          → choose (sockets now) b i publisher io₂ ≡ ok (route, logged now text io₂))
      → Call now
          (record { broker = b; io = io; spots = xs ++ at i ∷ ys; taken = taken })
          (record {
            broker = b;
            io = logged now text io;
            spots = xs ++ reading i route ∷ ys;
            taken = taken;
          })
  choose-Call xs ys b i publisher route io taken text c n any =
      chooses i publisher route (logged now text io) (xs ++ reading i route ∷ ys) c n (any io)
        (xs, ys, refl, refl) refl

  -- The thread between xs and ys reads a line that fills an answer.
  read_line-Call :
      (xs ys : List Spot) (b : Broker) (i : ℕ) (route : Route) (io : Io (sockets now))
      (taken : List (Route × Bytes)) (l : Bytes) (rest : List Answer) (f : Forwards now route l)
      → io.world.coming route.fd_pub ≡ got (l ++ newline) ∷ rest
      → IsLine l × (length l < 8191)
      → Call now
          (record { broker = b; io = io; spots = xs ++ reading i route ∷ ys; taken = taken })
          (record {
            broker = b;
            io = logged now f.text (record io { world = put_coming route.fd_pub rest io.world });
            spots = xs ++ sending i route string_topics 0 f.info ∷ ys;
            taken = taken ++ (route, l ++ newline) ∷ [];
          })
  read_line-Call xs ys b i route io taken l rest f e (line, short) =
      let (c, text, p) = line_parts l in
      let world = put_coming route.fd_pub rest io.world in
      let r =
        subst
          (λ u. read_line (route.fd_pub, []) maxline io.world ≡ ok (u, (route.fd_pub, []), world)) p
          (read_line-fresh now route.fd_pub l rest io.world e line short) in
      let h =
        subst
          (λ u.
            receive (sockets now) route.publisher u (record io { world = world })
            ≡ ok (f.info, logged now f.text (record io { world = world })))
          p (f.received (record io { world = world })) in
      rw p (
        reads i route c text (route.fd_pub, []) world f.info
          (logged now f.text (record io { world = world }))
          (xs ++ sending i route string_topics 0 f.info ∷ ys) r h (xs, ys, refl, refl) refl)

  -- Where two threads stand at the same subscription, at which they choose a route, and the next two
  -- answers on the publisher's connection hold one line of less than 8191 bytes each that the broker can
  -- forward, there is a run after which both threads stand at the next entry, the two lines were read
  -- in their order, and the messages of the second line were written to the subscriber before those of
  -- the first.
  pub overtaking :
      (b : Broker) (i : ℕ) (publisher : Bytes) (route : Route) (io io' : Io (sockets now))
      (zs : List Spot) (taken : List (Route × Bytes)) (l₁ l₂ : Bytes) (rest : List Answer)
      (out₁ out₂ : Io (sockets now))
      → cell_at b.client_sus_list i ≡ ok (some publisher)
      → str_eq publisher (codes "NONE") ≡ false
      → choose (sockets now) b i publisher io ≡ ok (route, io')
      → io.world.coming route.fd_pub ≡ got (l₁ ++ newline) ∷ got (l₂ ++ newline) ∷ rest
      → IsLine l₁ × (length l₁ < 8191)
      → IsLine l₂ × (length l₂ < 8191)
      → forward_line (sockets now) route.fd_sus route.topic route.publisher (l₁ ++ newline) io
        ≡ ok out₁
      → forward_line (sockets now) route.fd_sus route.topic route.publisher (l₂ ++ newline) io
        ≡ ok out₂
      → (io'' : Io (sockets now)) × Calls now
          (record { broker = b; io = io; spots = at i ∷ at i ∷ zs; taken = taken })
          (record {
            broker = b;
            io = io'';
            spots = at (suc i) ∷ at (suc i) ∷ zs;
            taken = taken ++ (route, l₁ ++ newline) ∷ (route, l₂ ++ newline) ∷ [];
          })
        × (io''.world.sent
            ≡ io.world.sent ++ made_of (route, l₂ ++ newline) ++ made_of (route, l₁ ++ newline))
  overtaking b i publisher route io io' zs taken l₁ l₂ rest out₁ out₂ c n h e line₁ line₂ f₁ f₂ =
      let (t, any) = (choose-logged b i publisher io).at (route, io') h in
      let f : Forwards now route l₁ = forwards now route l₁ io out₁ f₁ in
      let g : Forwards now route l₂ = forwards now route l₂ io out₂ f₂ in
      let left = got (l₂ ++ newline) ∷ rest in
      let chosen = logged now t (logged now t io) in
      let one =
        logged now f.text (record chosen { world = put_coming route.fd_pub left io.world }) in
      let two = logged now g.text (record one { world = put_coming route.fd_pub rest one.world }) in
      let ms = messages string_topics 0 route.topic f.info in
      let ns = messages string_topics 0 route.topic g.info in
      let after = written route.fd_sus ns two.world in
      let both = (taken ++ (route, l₁ ++ newline) ∷ []) ++ (route, l₂ ++ newline) ∷ [] in
      let first = choose-Call [] (at i ∷ zs) b i publisher route io taken t c n any in
      let second =
        choose-Call (reading i route ∷ []) zs b i publisher route (logged now t io) taken t c n
          any in
      let third =
        read_line-Call [] (reading i route ∷ zs) b i route chosen taken l₁ left f e line₁ in
      let fourth =
        read_line-Call (sending i route string_topics 0 f.info ∷ []) zs b i route one
          (taken ++ (route, l₁ ++ newline) ∷ []) l₂ rest g (coming_put route.fd_pub left io.world)
          line₂ in
      let late =
        send_from-Calls now (sending i route string_topics 0 f.info ∷ []) zs b i route string_topics
          0 g.info two.log both two.world after (g.sends two.world) in
      let last =
        send_from-Calls now [] (at (suc i) ∷ zs) b i route string_topics 0 f.info two.log both after
          (written route.fd_sus ms after) (f.sends after) in
      (
        record two { world = written route.fd_sus ms after },
        subst
            (λ taken'.
              Calls now (record { broker = b; io = io; spots = at i ∷ at i ∷ zs; taken = taken })
                (record {
                  broker = b;
                  io = record two { world = written route.fd_sus ms after };
                  spots = at (suc i) ∷ at (suc i) ∷ zs;
                  taken = taken';
                }))
            (append_assoc taken _ _)
            (Calls-trans now
              (Calls-trans now (next (next (next (next here first) second) third) fourth) late)
              last),
        rw (made_of-Forwards now route l₂ io g, made_of-Forwards now route l₁ io f) refl,
      )
