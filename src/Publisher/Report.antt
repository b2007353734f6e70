-- ===== src/Publisher/Report.antt =====
-- What the publisher makes of a report of `top`, and the block that it makes it in.
pub mod Line
use mqttv.Base.{
  ℕ, suc, ◌+◌, ◌≤◌, ◌<◌, ◌≡◌, refl, ap, some, List, [], ◌∷◌, ◌++◌, arith, lt→ltb, length,
  length-append, take, take_all, ◌∙◌,
}
use mqttv.Result.{ok, fault, overrun, ◌>>=◌, store_fits, store_overruns}
use mqttv.CString.{Bytes, codes, newline, c_string_id, HasNoNul, chop-append}
use mqttv.CString.Split.Tokens.{tokens}
use mqttv.CString.Split.Reference.{separar_tokens-tokens}
use mqttv.CString.Split.RoundTrip.{join}
use mqttv.CString.Values.{join-append_last}
use mqttv.Net.{maxline}
use mqttv.Publisher.{
  Floats, Block, limit_read, change_comma_for_period, info_at, requested, joined, join_full_info,
  parse_info, update_send_info,
}
use mqttv.Publisher.Strtol.{strtol}

length-change_comma_for_period : (s : Bytes) → length (change_comma_for_period s) ≡ length s
unfolding change_comma_for_period
length-change_comma_for_period [] = refl
length-change_comma_for_period (c ∷ s) = ap suc (length-change_comma_for_period s)

pub length-joined :
    (a b c d e f : Bytes)
    → length (joined a b c d e f)
      ≡ length a + length b + length c + length d + length e + length f + 5
length-joined a b c d e f = omega (
  arith,
  length-append a (b',' ∷ (b ++ (b',' ∷ (c ++ (b',' ∷ (d ++ (b',' ∷ (e ++ (b',' ∷ f))))))))),
  length-append b (b',' ∷ (c ++ (b',' ∷ (d ++ (b',' ∷ (e ++ (b',' ∷ f))))))),
  length-append c (b',' ∷ (d ++ (b',' ∷ (e ++ (b',' ∷ f))))),
  length-append d (b',' ∷ (e ++ (b',' ∷ f))),
  length-append e (b',' ∷ f),
)

-- A block of the size that is asked for never has room: the commas are not counted in it.
pub join_full_info_overruns :
    (malloc : ℕ → Block) (a b c d e f : Bytes)
    → ((n : ℕ) → (malloc n).usable ≡ n)
    → join_full_info malloc a b c d e f ≡ fault overrun
unfolding join_full_info ◌>>=◌
join_full_info_overruns malloc a b c d e f exact =
    let block = malloc (requested a b c d e f) in
    rw (
      store_overruns block.usable (block.held ++ joined a b c d (change_comma_for_period e) f) (
        omega (
          arith,
          exact (requested a b c d e f),
          length-append block.held (joined a b c d (change_comma_for_period e) f),
          length-joined a b c d (change_comma_for_period e) f,
          length-change_comma_for_period e,
        )))

-- In a block with room and with nothing in it, the texts are joined by commas, and a newline takes
-- the place of the last byte.
join_full_info_lem :
    (malloc : ℕ → Block) (a b c d e front : Bytes) (digit : ℕ)
    → ((n : ℕ) → (malloc n).held ≡ [])
    → ((n : ℕ) → n + 5 ≤ (malloc n).usable)
    → join_full_info malloc a b c d e (front ++ (digit ∷ []))
      ≡ ok (join b',' (a ∷ b ∷ c ∷ d ∷ change_comma_for_period e ∷ front ∷ []) ++ newline)
unfolding join_full_info ◌>>=◌
join_full_info_lem malloc a b c d e front digit empty room =
    let size = requested a b c d e (front ++ (digit ∷ [])) in
    let text = joined a b c d (change_comma_for_period e) (front ++ (digit ∷ [])) in
    rw (empty size) (
      rw
        (store_fits (malloc size).usable text (
          omega (
            arith,
            room size,
            length-joined a b c d (change_comma_for_period e) (front ++ (digit ∷ [])),
            length-change_comma_for_period e,
          )))
        (rw
          (join-append_last b',' (digit ∷ []) a
            (b ∷ c ∷ d ∷ change_comma_for_period e ∷ front ∷ []))
          (rw (
            chop-append (join b',' (a ∷ b ∷ c ∷ d ∷ change_comma_for_period e ∷ front ∷ []))
              digit))))

-- The values of a report, in their order.
pub record Top : Type 0 where
  pub us : Bytes
  pub sy : Bytes
  pub ni : Bytes
  pub id : Bytes
  pub wa : Bytes
  pub hi : Bytes
  pub si : Bytes
  pub st : Bytes
  pub total : Bytes
  pub running : Bytes
  pub sleeping : Bytes
  pub stopped : Bytes
  pub zombie : Bytes
  pub mem_total : Bytes
  pub mem_free : Bytes
  pub mem_used : Bytes
  pub mem_cache : Bytes

-- The words of info.txt up to the value of buff/cache; a line break between two spaces belongs to
-- a word.
abbrev pub words : Top → List Bytes
words t =
    codes "%Cpu(s):"
    ∷ t.us
    ∷ codes "us,"
    ∷ t.sy
    ∷ codes "sy,"
    ∷ t.ni
    ∷ codes "ni,"
    ∷ t.id
    ∷ codes "id,"
    ∷ t.wa
    ∷ codes "wa,"
    ∷ t.hi
    ∷ codes "hi,"
    ∷ t.si
    ∷ codes "si,"
    ∷ t.st
    ∷ codes "st\nTasks:"
    ∷ t.total
    ∷ codes "total,"
    ∷ t.running
    ∷ codes "running,"
    ∷ t.sleeping
    ∷ codes "sleeping,"
    ∷ t.stopped
    ∷ codes "stopped,"
    ∷ t.zombie
    ∷ codes "zombie\nMiB"
    ∷ codes "Mem"
    ∷ codes ":"
    ∷ t.mem_total
    ∷ codes "total,"
    ∷ t.mem_free
    ∷ codes "free,"
    ∷ t.mem_used
    ∷ codes "used,"
    ∷ t.mem_cache
    ∷ []

module _ (floats : Floats) where
  open floats use {of_long, divide, times_hundred, show}

  abbrev pub percentage : Bytes → Bytes → Bytes
  percentage used total =
      show (times_hundred (divide (of_long (strtol used)) (of_long (strtol total))))

  -- From a report of which `read` gets all, the line is made of the six fields that it names.
  pub update_send_info_fields_joined :
      (malloc : ℕ → Block) (file : Bytes) (t : Top) (rest : List Bytes)
      → HasNoNul file
      → length file < limit_read
      → tokens (codes " ") file ≡ words t ++ rest
      → length rest < 1000
      → update_send_info floats malloc (some file)
        ≡ join_full_info malloc
            (change_comma_for_period t.total)
            t.sleeping
            t.stopped
            (change_comma_for_period t.us)
            t.ni
            (take 9 (percentage t.mem_cache t.mem_total))
  unfolding update_send_info parse_info info_at ◌>>=◌
  update_send_info_fields_joined malloc file t rest no_nul short e few =
      rw (take_all limit_read file (omega arith)) (
        rw (lt→ltb (length file) limit_read short) (
          rw (c_string_id file no_nul) (
            rw
              (separar_tokens-tokens maxline file (codes " ")
                (rw e (omega (arith, few, length-append (words t) rest))))
              (rw e refl))))

  -- From a report of which `read` gets all, in a block with room and with nothing in it before: the
  -- line has the number of tasks, then of the sleeping and of the stopped ones, then the user's and
  -- the nice share of the CPU, then the share of the memory that buffers and caches take, without
  -- its last digit. Commas become periods in the first, the fourth and the fifth.
  pub update_send_info_fields :
      (malloc : ℕ → Block) (file front : Bytes) (digit : ℕ) (t : Top) (rest : List Bytes)
      → HasNoNul file
      → length file < limit_read
      → tokens (codes " ") file ≡ words t ++ rest
      → percentage t.mem_cache t.mem_total ≡ front ++ (digit ∷ [])
      → length front < 9
      → ((n : ℕ) → (malloc n).held ≡ [])
      → ((n : ℕ) → n + 5 ≤ (malloc n).usable)
      → length rest < 1000
      → update_send_info floats malloc (some file)
        ≡ ok (
            join b',' (
              change_comma_for_period t.total
              ∷ t.sleeping
              ∷ t.stopped
              ∷ change_comma_for_period t.us
              ∷ change_comma_for_period t.ni
              ∷ front
              ∷ [])
            ++ newline)
  update_send_info_fields malloc file front digit t rest no_nul short e p q empty room few =
      update_send_info_fields_joined malloc file t rest no_nul short e few
      ∙ rw p (
          rw
            (take_all 9 (front ++ (digit ∷ []))
              (omega (arith, q, length-append front (digit ∷ []))))
            (join_full_info_lem malloc (change_comma_for_period t.total) t.sleeping t.stopped
              (change_comma_for_period t.us) t.ni front digit empty room))
