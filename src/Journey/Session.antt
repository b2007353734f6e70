-- ===== src/Journey/Session.antt =====
-- A session of the three programs, with one publisher and one subscriber to it: the lines that arrive
-- at the broker, the routes that they take, and the lines that arrive at the subscriber.
pub mod Shown
pub mod Reports
pub mod Opening
use mathlib.Core.List.{map-append}
use mqttv.Base.{
  ℕ, zero, suc, ◌+◌, ◌<◌, ◌≡◌, refl, sym, ap, ◌∙◌, Bool, true, false, some, List, [], ◌∷◌, ◌++◌,
  map, arith, length, All, All-append, if◌then◌else◌, append-nil, length-append,
}
use mqttv.Int.{ℤ}
use mqttv.Result.{Result, ok, ◌>>=◌}
use mqttv.CString.{Bytes, codes, newline, str_eq, str_eq_refl}
use mqttv.Net.{Io, maxline}
use mqttv.Broker.{Broker, limit_conn_clients}
use mqttv.Broker.Tables.{IsValid}
use mqttv.Broker.Directory.{Client, directory, find_fd}
use mqttv.Forward.{forward_rounds}
use mqttv.Publisher.{Floats, Block}
use mqttv.Publisher.Rounds.{Files, publish_all}
use mqttv.Publisher.Main.{Lines, rounds_send}
use mqttv.Subscriber.{listen}
use mqttv.Subscriber.Listen.{listen_prints}
use mqttv.Rio.{Answer, got}
use mqttv.Rio.Connections.{Sockets, sockets, same_fd, same_fd_refl, put_coming, coming_put}
use mqttv.Threads.Calls.{Route}
use mqttv.Threads.Calls.Messages.{to_fd, made}
use mqttv.Journey.Shares.{
  arriving, announcement, Deal, nobody, passed_over, served, Deals, no_more, round, rounds_deal,
}
use mqttv.Journey.Session.Shown.{IsShown, Carry, Carry-Reads, c_string-IsShown}
use mqttv.Journey.Session.Reports.{
  Report, line_of, IsReport, line_of-IsLine, lines_for, lines_for-IsShown, subscriber, route,
  report-IsForwardable, report_made,
}

-- The texts that were written to a descriptor.
abbrev pub texts_on : ℤ → List (ℤ × Bytes) → List Bytes
texts_on fd [] = []
texts_on fd ((other, s) ∷ writes) =
    if same_fd fd other then s ∷ texts_on fd writes else texts_on fd writes

pub texts_on-to_fd : (fd : ℤ) (ms : List Bytes) → texts_on fd (to_fd fd ms) ≡ ms
texts_on-to_fd fd [] = refl
texts_on-to_fd fd (m ∷ ms) = rw (same_fd_refl fd) (ap (◌∷◌ m) (texts_on-to_fd fd ms))

-- The line that the publisher sends of a report.
abbrev pub sent_line : Report → Bytes
sent_line r = line_of r ++ newline

pub arriving_lines : (rs : List Report) → map got (map sent_line rs) ≡ arriving (map line_of rs) []
arriving_lines [] = refl
arriving_lines (r ∷ rs) = ap (◌∷◌ (got (sent_line r))) (arriving_lines rs)

module _ (now : Bytes) (a b c d e f : ℤ) (name : Bytes) (p : Client) (fd_sus : ℤ) where
  -- What the subscriber is to get.
  abbrev pub shown : List Report → List Bytes
  shown [] = []
  shown (r ∷ rs) = lines_for now a b c d e f r ++ shown rs

  pub shown-IsShown : (rs : List Report) → All (IsReport now p.name) rs → All IsShown (shown rs)
  shown-IsShown [] h = tt
  shown-IsShown (r ∷ rs) h =
      All-append IsShown (lines_for now a b c d e f r) (shown rs)
        (lines_for-IsShown now a b c d e f p.name r h.0) (shown-IsShown rs h.1)

  abbrev pub s : Client
  s = subscriber now a b c d e f name p.name p.fd fd_sus

  abbrev pub along : Report → Route × Bytes
  along r = (route now a b c d e f name p.name p.fd fd_sus, sent_line r)

  pub session_made :
      (rs : List Report)
      → All (IsReport now p.name) rs
      → made (map along rs) ≡ to_fd fd_sus (shown rs)
  session_made [] h = refl
  session_made (r ∷ rs) h =
      ap (λ (ws : List (ℤ × Bytes)). ws ++ made (map along rs))
        (report_made now a b c d e f name p.name p.fd fd_sus r h.0)
      ∙ ap (λ (ws : List (ℤ × Bytes)). to_fd fd_sus (lines_for now a b c d e f r) ++ ws)
          (session_made rs h.1)
      ∙ sym (map-append _ (lines_for now a b c d e f r) (shown rs))

  pub session-Deals :
      (rs : List Report)
      → str_eq p.sus (codes "NONE") ≡ true
      → str_eq p.name (codes "NONE") ≡ false
      → str_eq name p.name ≡ false
      → length (announcement s) + length now < maxline
      → All (IsReport now p.name) rs
      → Deals now (p ∷ s ∷ []) p.fd (length rs) (map line_of rs) (map along rs)
  unfolding find_fd
  session-Deals [] none some_node other room h = no_more
  session-Deals (r ∷ rs) none some_node other room h =
      round
        (passed_over none (
          served fd_sus some_node (rw (str_eq_refl p.name) refl) (rw (other, str_eq_refl name) refl)
            room (line_of-IsLine now p.name r h.0)
            (omega (arith, h.0.short, length-append (line_of r) newline))
            (report-IsForwardable now a b c d e f name p.name p.fd fd_sus r h.0) nobody))
        (session-Deals rs none some_node other room h.1)
