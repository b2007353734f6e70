-- ===== src/Journey/Session/Reports.antt =====
-- The lines of the publisher, and what the broker writes of them to a subscriber.
use mqttv.Base.{
  ◌+◌, ◌≤◌, ◌<◌, ◌≡◌, refl, sym, ap, ◌∙◌, ◌==◌, Bool, true, false, List, [], ◌∷◌, ◌++◌, arith,
  length, All, All-append, Bool-cases, inl, inr, if◌then◌else◌, length-append,
}
use mqttv.Int.{ℤ, is_minus_one}
use mqttv.Result.{ok, ◌>>=◌}
use mqttv.Result.Ensures.{ok_injective}
use mqttv.CString.{Bytes, codes, newline, HasNoNul}
use mqttv.CString.Values.{HasNoNul-append}
use mqttv.CString.Split.RoundTrip.{join}
use mqttv.Topics.{string_topics}
use mqttv.Net.{Io, maxline}
use mqttv.Broker.Directory.{Client}
use mqttv.Forward.{forward_line}
use mqttv.Forward.Delivery.{IsValue, topic_lines, forward_line-delivers}
use mqttv.Journey.Delivery.{selected, send_all-sockets}
use mqttv.Journey.Shares.{route_of, IsForwardable}
use mqttv.Journey.Session.Shown.{IsShown}
use mqttv.Rio.Fresh.{IsLine}
use mqttv.Rio.Connections.{sockets, written}
use mqttv.Threads.Calls.{Route}
use mqttv.Threads.Calls.Messages.{to_fd, made_of}
use mqttv.Threads.Calls.Lines.{Forwards, forwards, made_of-Forwards}

-- The six values of a report.
pub record Report : Type 0 where
  pub v₀ : Bytes
  pub v₁ : Bytes
  pub v₂ : Bytes
  pub v₃ : Bytes
  pub v₄ : Bytes
  pub v₅ : Bytes

abbrev pub values : Report → List Bytes
values r = r.v₀ ∷ r.v₁ ∷ r.v₂ ∷ r.v₃ ∷ r.v₄ ∷ r.v₅ ∷ []

abbrev pub line_of : Report → Bytes
line_of r = join b',' (values r)

-- What the broker logs of it.
abbrev pub said : Bytes → Report → Bytes
said publisher r =
    codes "Se ha recibido [" ++ (line_of r ++ (codes "] de [" ++ (publisher ++ codes "]")))

-- The values are without commas, NULs and newlines and not empty, and the line and its log text fit.
pub record IsReport (now publisher : Bytes) (r : Report) : Type 0 where
  pub fit : All IsValue (values r)
  pub lines : All IsLine (values r)
  pub short : length (line_of r ++ newline) < 100
  pub room : length (said publisher r) + length now < maxline

IsLine-append : (s t : Bytes) → IsLine s → IsLine t → IsLine (s ++ t)
IsLine-append s t h k = All-append (λ c. (c == b'\n') ≡ false) s t h k

IsLine-join : (ps : List Bytes) → All IsLine ps → IsLine (join b',' ps)
IsLine-join [] h = tt
IsLine-join (p ∷ []) h = h.0
IsLine-join (p ∷ q ∷ ps) h =
    IsLine-append p (b',' ∷ join b',' (q ∷ ps)) h.0 (refl, IsLine-join (q ∷ ps) h.1)

pub line_of-IsLine :
    (now publisher : Bytes) (r : Report) → IsReport now publisher r → IsLine (line_of r)
line_of-IsLine now publisher r h = IsLine-join (values r) h.lines

-- A text without newlines and NULs, as a test.
abbrev pub plain : Bytes → Bool
plain [] = true
plain (c ∷ s) = if c == b'\n' then false else if c == 0 then false else plain s

pub plain_lem : (s : Bytes) → plain s ≡ true → IsLine s × HasNoNul s
plain_lem [] h = (tt, tt)
plain_lem (c ∷ s) h = elim (Bool-cases (c == b'\n')) [
  | inl e ↦ cc (rw e at h)
  | inr e ↦ elim (Bool-cases (c == 0)) [
    | inl k ↦ cc (rw k at rw e at h)
    | inr k ↦
        let (line, no_nul) = plain_lem s (rw k at rw e at h) in
        ((e, line), ((λ z. cc (rw z at k)), no_nul))
  ]
]

-- A prefix of a topic.
abbrev IsPrefix : Bytes → Type 0
IsPrefix p = IsLine p × HasNoNul p × (length p ≤ 13)

string_topics-IsPrefix : All IsPrefix string_topics
string_topics-IsPrefix = (
  prefix (codes "tasks/gen: ") refl (omega arith),
  (
    prefix (codes "tasks/run: ") refl (omega arith),
    (
      prefix (codes "tasks/sleep: ") refl (omega arith),
      (
        prefix (codes "cpu/gen: ") refl (omega arith),
        (
          prefix (codes "cpu/sys: ") refl (omega arith),
          (prefix (codes "mem/gen: ") refl (omega arith), tt),
        ),
      ),
    ),
  ),
)
  where
    prefix : (p : Bytes) → plain p ≡ true → length p ≤ 13 → IsPrefix p
    prefix p h le = let (line, no_nul) = plain_lem p h in (line, no_nul, le)

selected-IsShown :
    (cs : List ℤ) (ps vs : List Bytes)
    → All IsPrefix ps
    → All IsLine vs
    → All IsValue vs
    → All IsShown (selected cs (topic_lines ps vs))
selected-IsShown [] ps vs hp hv l = tt
selected-IsShown (c ∷ cs) [] vs hp hv l = tt
selected-IsShown (c ∷ cs) (p ∷ ps) [] hp hv l = tt
selected-IsShown (c ∷ cs) (p ∷ ps) (v ∷ vs) hp hv l =
    let rest = selected-IsShown cs ps vs hp.1 hv.1 l.1 in
    elim (Bool-cases (is_minus_one c)) [
      | inl e ↦ rw e rest
      | inr e ↦ rw e (
        (
          p ++ v,
          refl,
          IsLine-append p v hp.0.0 hv.0,
          omega (arith, length-append p v, hp.0.2, l.0.2),
          HasNoNul-append p v hp.0.1 l.0.1,
        ),
        rest,
      )
    ]

module _ (now : Bytes) (a b c d e f : ℤ) where
  abbrev pub row : List ℤ
  row = a ∷ b ∷ c ∷ d ∷ e ∷ f ∷ []

  -- What a subscriber with that row gets of a report.
  abbrev pub lines_for : Report → List Bytes
  lines_for r = selected row (topic_lines string_topics (values r))

  pub lines_for-IsShown :
      (publisher : Bytes) (r : Report) → IsReport now publisher r → All IsShown (lines_for r)
  lines_for-IsShown publisher r h =
      selected-IsShown row string_topics (values r) string_topics-IsPrefix h.lines h.fit

  module _ (name publisher : Bytes) (fd_pub fd_sus : ℤ) where
    abbrev pub subscriber : Client
    subscriber = record { name = name; fd = fd_sus; sus = publisher; row = row }

    abbrev pub route : Route
    route = route_of fd_pub fd_sus subscriber

    empty : Io (sockets now)
    empty = record { world = record { coming = λ fd. []; sent = [] }; log = [] }

    report_forwarded :
        (r : Report)
        → IsReport now publisher r
        → forward_line (sockets now) fd_sus row publisher (line_of r ++ newline) empty
          ≡ ok (record {
            world = written fd_sus (lines_for r) empty.world;
            log = ((now ++ said publisher r) ++ newline) ∷ [];
          })
    unfolding ◌>>=◌ empty
    report_forwarded r h =
        forward_line-delivers (sockets now) a b c d e f r.v₀ r.v₁ r.v₂ r.v₃ r.v₄ r.v₅ fd_sus
          publisher empty h.fit h.short h.room
        ∙ rw (send_all-sockets now fd_sus row (topic_lines string_topics (values r)) empty.world)
            refl

    pub report-IsForwardable :
        (r : Report) → IsReport now publisher r → IsForwardable now route (line_of r)
    report-IsForwardable r h = (empty, _, (report_forwarded r h))

    pub report_made :
        (r : Report)
        → IsReport now publisher r
        → made_of (route, line_of r ++ newline) ≡ to_fd fd_sus (lines_for r)
    unfolding empty
    report_made r h =
        let g : Forwards now route (line_of r) =
          forwards now route (line_of r) empty _ (report_forwarded r h) in
        sym (made_of-Forwards now route (line_of r) empty g)
        ∙ ap (λ (io : Io (sockets now)). io.world.sent)
            (ok_injective _ _ (sym (g.delivers empty) ∙ (report_forwarded r h)))
