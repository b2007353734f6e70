-- ===== src/Tests/Session.antt =====
-- Two reports for the runs of a session.
use mqttv.Base.{◌≡◌, refl, some, List, [], ◌∷◌, arith, map, All}
use mqttv.Int.{pos}
use mqttv.Result.{ok}
use mqttv.CString.{Bytes, codes, is_delim, str_eq}
use mqttv.CString.Split.Tokens.{tokens}
use mqttv.Broker.Directory.{Client}
use mqttv.Publisher.{change_comma_for_period, update_send_info}
use mqttv.Publisher.Report.{update_send_info_fields}
use mqttv.Publisher.Main.{Lines}
use mqttv.Rio.{got}
use mqttv.Journey.Session.Shown.{IsShown, Carry}
use mqttv.Journey.Session.Reports.{Report, IsReport, plain_lem}
use mqttv.Tests.Script.{clean_row}
use mqttv.Tests.Clients.{roomy_block, quarter, report, info_txt}
use mqttv.Tests.Mains.{grep_once, report_line, empty_files, one_round}

abbrev now : Bytes
now = codes "now"

abbrev pub publisher : Client
publisher = record { name = codes "n1"; fd = pos 4; sus = codes "NONE"; row = clean_row }

abbrev pub six : Report
six = record {
  v₀ = codes "200";
  v₁ = codes "198";
  v₂ = codes "7";
  v₃ = codes "1.0";
  v₄ = codes "3.0";
  v₅ = codes "25.123";
}

abbrev pub two_infos : List Bytes
two_infos = report_line ∷ report_line ∷ []

abbrev pub two_tops : List Bytes
two_tops = codes "top" ∷ codes "top" ∷ []

pub two_lines : Lines now quarter roomy_block grep_once empty_files two_tops two_infos one_round
unfolding change_comma_for_period tokens is_delim str_eq
two_lines = Lines.more sent (Lines.more sent Lines.done)
  where
    sent : update_send_info quarter roomy_block (some info_txt) ≡ ok report_line
    sent =
        update_send_info_fields quarter roomy_block info_txt (codes "25.123") b'4' report
          (codes "buff/cache\n" ∷ []) (omega arith) (omega arith) refl refl (omega arith)
          (λ n. refl) (λ n. omega arith) (omega arith)

pub six-IsReport : IsReport now (codes "n1") six
unfolding is_delim
six-IsReport = record {
  fit = (
    (((λ e. cc), (refl, (refl, (refl, tt)))), omega arith, omega arith),
    (
      (((λ e. cc), (refl, (refl, (refl, tt)))), omega arith, omega arith),
      (
        (((λ e. cc), (refl, tt)), omega arith, omega arith),
        (
          (((λ e. cc), (refl, (refl, (refl, tt)))), omega arith, omega arith),
          (
            (((λ e. cc), (refl, (refl, (refl, tt)))), omega arith, omega arith),
            (
              (
                ((λ e. cc), (refl, (refl, (refl, (refl, (refl, (refl, tt))))))),
                omega arith,
                omega arith,
              ),
              tt,
            ),
          ),
        ),
      ),
    ),
  );
  lines = (
    (plain_lem (codes "200") refl).0,
    (
      (plain_lem (codes "198") refl).0,
      (
        (plain_lem (codes "7") refl).0,
        (
          (plain_lem (codes "1.0") refl).0,
          ((plain_lem (codes "3.0") refl).0, ((plain_lem (codes "25.123") refl).0, tt)),
        ),
      ),
    ),
  );
  short = omega arith;
  room = omega arith;
}

-- Each text comes in an answer of its own.
pub one_by_one : (ts : List Bytes) → All IsShown ts → Carry (map got ts) ts
one_by_one [] h = (tt, refl)
one_by_one ([] ∷ ts) (([], p, _, _, _), h) = cc
one_by_one ([] ∷ ts) (((c ∷ s), p, _, _, _), h) = cc
one_by_one ((c ∷ m) ∷ ts) (_, h) = let (alive, all) = one_by_one ts h in (alive, rw all refl)

abbrev pub shown_lines : List Bytes
shown_lines =
    codes "tasks/gen: 200\n"
    ∷ codes "tasks/run: 198\n"
    ∷ codes "tasks/sleep: 7\n"
    ∷ codes "cpu/gen: 1.0\n"
    ∷ codes "cpu/sys: 3.0\n"
    ∷ codes "mem/gen: 25.123\n"
    ∷ []
