-- ===== src/Journey/Whole/Served.antt =====
-- The broker from its empty tables: the two clients register, and the rounds go on.
use mqttv.Base.{
  ℕ, ◌+◌, length-append, ◌<◌, ◌≤◌, ◌≡◌, refl, ◌≢◌, ap, ◌∙◌, false, List, [], ◌∷◌, ◌++◌, map, arith,
  length, All,
}
use mqttv.Int.{ℤ}
use mqttv.Topics.Filters.{IsSupported, picked, wanted, and_each}
use mqttv.Forward.Delivery.{topic_lines}
use mqttv.Topics.{string_topics}
use mqttv.Result.{ok}
use mqttv.CString.{Bytes, codes, newline, str_eq, str_eq_refl, HasNoNul}
use mqttv.CString.Split.RoundTrip.{join, IsWord}
use mqttv.Net.{Io, maxline}
use mqttv.Broker.{Broker, init}
use mqttv.Broker.Directory.{Client, directory}
use mqttv.Broker.Tables.{init-IsValid}
use mqttv.Broker.Register.{register}
use mqttv.Broker.Register.Effect.{register-IsValid}
use mqttv.Forward.{forward_rounds}
use mqttv.Rio.{Answer, got}
use mqttv.Rio.Fresh.{IsLine}
use mqttv.Rio.Connections.{Sockets, sockets, same_fd}
use mqttv.Journey.Shares.{announcement, arriving, Deals, rounds_deal}
use mqttv.Journey.Session.Shown.{IsShown}
use mqttv.Journey.Session.Opening.{
  with_publisher, with_both, publisher_client, directory-with_both, count-with_both, opening,
}
use mqttv.Journey.Session.{
  texts_on, texts_on-to_fd, shown, shown-IsShown, session_made, session-Deals, along,
}
use mqttv.Journey.Session.Reports.{Report, line_of, values, IsReport}
use mqttv.Journey.Whole.Asked.{chosen, selected-picked, six_cells, asked}

module _ (now : Bytes) (slots : ℕ) (u₀ u₁ u₂ u₃ u₄ u₅ : ℤ) (publisher name : Bytes)
    (filter : List Bytes) (fd_pub fd_sus : ℤ) where
  abbrev pub information : List ℤ
  information = u₀ ∷ u₁ ∷ u₂ ∷ u₃ ∷ u₄ ∷ u₅ ∷ []

  abbrev p : Client
  p = publisher_client now slots fd_pub publisher

  abbrev pub topic : Bytes
  topic = join b'/' (publisher ∷ filter)

  shown-asked :
      (a b c d e f : ℤ) (rs : List Report)
      → picked (a ∷ b ∷ c ∷ d ∷ e ∷ f ∷ []) ≡ and_each (wanted filter) (picked information)
      → shown now a b c d e f name p fd_sus rs ≡ asked filter information rs
  shown-asked a b c d e f [] h = refl
  shown-asked a b c d e f (r ∷ rs) h =
      let ms = topic_lines string_topics (values r) in
      ap (λ (ws : List Bytes). ws ++ shown now a b c d e f name p fd_sus rs)
        (selected-picked (a ∷ b ∷ c ∷ d ∷ e ∷ f ∷ []) ms ∙ ap (λ flags. chosen flags ms) h)
      ∙ ap (λ (ws : List Bytes). chosen (and_each (wanted filter) (picked information)) ms ++ ws)
          (shown-asked a b c d e f rs h)

  row_cells :
      (row : List ℤ)
      → picked row ≡ and_each (wanted filter) (picked information)
      → (a : ℤ) × (b : ℤ) × (c : ℤ) × (d : ℤ) × (e : ℤ) × (f : ℤ) × (row
          ≡ a ∷ b ∷ c ∷ d ∷ e ∷ f ∷ [])
  unfolding wanted
  row_cells row h = six_cells row _ _ _ _ _ _ h

  -- Names and a subscription that the buffers of all three programs have room for, to a node other
  -- than the subscriber itself, by a filter of IsSupported; two connections.
  pub record AreFitting : Type 0 where
    pub apart : same_fd fd_pub fd_sus ≡ false
    pub apart' : same_fd fd_sus fd_pub ≡ false
    pub publisher_fits : IsLine publisher × HasNoNul publisher × (length publisher < 19)
    pub name_fits : IsLine name × HasNoNul name × (length name < 19)
    pub topic_fits : IsLine topic × HasNoNul topic × (length topic < 19)
    pub words : All (IsWord (codes "/")) (publisher ∷ filter)
    pub levels : length (publisher ∷ filter) ≤ slots
    pub subscribes : topic ≢ codes "NONE"
    pub node : str_eq publisher (codes "NONE") ≡ false
    pub other : str_eq name publisher ≡ false
    pub supported : IsSupported filter
    pub time : length now < 100

  -- What the broker makes of two connections, from its empty tables.
  pub record Outcome (rs : List Report) (m : ℕ) (w : Sockets) (log : List Bytes) : Type 0 where
    pub io₁ : Io (sockets now)
    pub io₂ : Io (sockets now)
    pub io_b : Io (sockets now)
    pub b₁ : Broker
    pub b₂ : Broker
    pub first :
        register (sockets now) slots information fd_pub init (record { world = w; log = log })
        ≡ ok (b₁, io₁)
    pub second : register (sockets now) slots information fd_sus b₁ io₁ ≡ ok (b₂, io₂)
    pub rounds : forward_rounds (sockets now) m (length rs) b₂ io₂ ≡ ok io_b
    pub texts : texts_on fd_sus io_b.world.sent ≡ asked filter information rs
    pub all_shown : All IsShown (asked filter information rs)

  announcement_fits :
      (row : List ℤ)
      → AreFitting
      → length (announcement (record { name = name; fd = fd_sus; sus = publisher; row = row }))
          + length now
        < maxline
  announcement_fits row h = omega (
    arith,
    h.publisher_fits.2,
    h.name_fits.2,
    h.time,
    length-append publisher (codes "] -> [" ++ (name ++ codes "]")),
    length-append name (codes "]"),
  )

  pub serves :
      (rs : List Report) (m : ℕ) (w : Sockets) (log : List Bytes) (rest : List Answer)
      → AreFitting
      → All (IsReport now publisher) rs
      → 2 < m
      → w.sent ≡ []
      → w.coming fd_pub
        ≡ got (publisher ++ newline) ∷ got (codes "NONE\n") ∷ arriving (map line_of rs) []
      → w.coming fd_sus ≡ got (name ++ newline) ∷ got (topic ++ newline) ∷ rest
      → Outcome rs m w log
  serves rs m w log rest h good fuel fresh arrives arrives' =
      let (row, io₁, io₂, first, second, exact, same, comes) =
        opening now slots u₀ u₁ u₂ u₃ u₄ u₅ fd_pub fd_sus w log publisher name filter
          (arriving (map line_of rs) []) rest h.apart h.apart' arrives arrives' h.publisher_fits
          h.name_fits h.topic_fits h.words h.levels h.subscribes h.supported h.time in
      let (a, b, c, d, e, f, cells) = row_cells row exact in
      let b₂ = with_both now slots fd_pub publisher fd_sus name row in
      let count = count-with_both now slots fd_pub publisher fd_sus name row in
      let v₁ =
        (register-IsValid (sockets now) slots information fd_pub init
            (record { world = w; log = log }) init-IsValid).at
          (with_publisher now slots fd_pub publisher, io₁) first in
      let v₂ =
        (register-IsValid (sockets now) slots information fd_sus
            (with_publisher now slots fd_pub publisher) io₁ v₁).at
          (b₂, io₂) second in
      let deals : Deals now (directory b₂) fd_pub (length rs) (map line_of rs)
          (map (along now a b c d e f name p fd_sus) rs) =
        rw (directory-with_both now slots fd_pub publisher fd_sus name row, cells)
          (session-Deals now a b c d e f name p fd_sus rs (str_eq_refl (codes "NONE")) h.node
            h.other (announcement_fits (a ∷ b ∷ c ∷ d ∷ e ∷ f ∷ []) h) good) in
      let (io_b, rounds, sent, _) =
        rounds_deal now m v₂ (omega (arith, count)) (omega (arith, count, fuel)) deals [] io₂
          comes in
      let wants = shown-asked a b c d e f rs (rw cells at exact) in
      record {
        io₁ = io₁;
        io₂ = io₂;
        io_b = io_b;
        b₁ = with_publisher now slots fd_pub publisher;
        b₂ = b₂;
        first = first;
        second = second;
        rounds = rounds;
        texts =
            ap (texts_on fd_sus)
              (sent ∙ rw (same ∙ fresh) (session_made now a b c d e f name p fd_sus rs good))
            ∙ texts_on-to_fd fd_sus (shown now a b c d e f name p fd_sus rs)
            ∙ wants;
        all_shown = rw (← wants) (shown-IsShown now a b c d e f name p fd_sus rs good);
      }
