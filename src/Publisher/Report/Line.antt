-- ===== src/Publisher/Report/Line.antt =====
-- The line of a report, in whatever block malloc gives for it.
use mqttv.Base.{
  ℕ, ◌<◌, ◌≡◌, refl, ap, ◌∙◌, inl, inr, some, List, [], ◌∷◌, ◌++◌, arith, ltb, Bool-cases,
  if◌then◌else◌, length, length-append, take,
}
use mqttv.Result.{ok, fault, overrun, ◌>>=◌, store}
use mqttv.CString.{Bytes, codes, newline, HasNoNul, chop, chop-append}
use mqttv.CString.Split.Tokens.{tokens}
use mqttv.CString.Split.RoundTrip.{join}
use mqttv.Publisher.{
  Floats, Block, limit_read, change_comma_for_period, requested, joined, join_full_info,
  update_send_info,
}
use mqttv.Publisher.Report.{Top, words, percentage, length-joined, update_send_info_fields_joined}

last_byte : (s : Bytes) → 0 < length s → (front : Bytes) × (last : ℕ) × (s ≡ front ++ (last ∷ []))
last_byte [] h = elim h [ ]
last_byte (c ∷ []) h = ([], c, refl)
last_byte (c ∷ d ∷ s) h =
    let (front, last, e) = last_byte (d ∷ s) (omega arith) in (c ∷ front, last, ap (◌∷◌ c) e)

store-chop :
    (cap : ℕ) (text front : Bytes) (last : ℕ)
    → text ≡ front ++ (last ∷ [])
    → (store cap text >>= λ full. chop full >>= λ s. ok (s ++ newline))
      ≡ (if ltb (length text) cap then ok (front ++ newline) else fault overrun)
unfolding ◌>>=◌
store-chop cap text front last p = elim (Bool-cases (ltb (length text) cap)) [
  | inl fits ↦ rw fits (rw p (rw (chop-append front last)))
  | inr over ↦ rw over
]

-- In any block: the texts stand joined by commas behind what the block holds, if that fits, and a
-- newline takes the place of the last byte.
join_full_info-join :
    (malloc : ℕ → Block) (a b c d e f : Bytes)
    → let block = malloc (requested a b c d e f) in
      let text = block.held ++ join b',' (a ∷ b ∷ c ∷ d ∷ change_comma_for_period e ∷ f ∷ []) in
      (front : Bytes) × (last : ℕ) × (text ≡ front ++ (last ∷ []))
      × (join_full_info malloc a b c d e f
          ≡ (if ltb (length text) block.usable then ok (front ++ newline) else fault overrun))
unfolding join_full_info ◌>>=◌
join_full_info-join malloc a b c d e f =
    let block = malloc (requested a b c d e f) in
    let text = joined a b c d (change_comma_for_period e) f in
    let (front, last, p) = last_byte (block.held ++ text) (
      omega (
        arith,
        length-append block.held text,
        length-joined a b c d (change_comma_for_period e) f,
      )) in
    (front, last, p, store-chop block.usable (block.held ++ text) front last p)

module _ (floats : Floats) where
  -- What the block holds and then the six values of the line, separated by commas.
  abbrev pub line_values : Block → Top → Bytes
  line_values block t =
      block.held
      ++ join b',' (
          change_comma_for_period t.total
          ∷ t.sleeping
          ∷ t.stopped
          ∷ change_comma_for_period t.us
          ∷ change_comma_for_period t.ni
          ∷ take 9 (percentage floats t.mem_cache t.mem_total)
          ∷ [])

  -- The block that the line of a report is made in.
  abbrev pub line_block : (ℕ → Block) → Top → Block
  line_block malloc t = malloc (
      requested (change_comma_for_period t.total) t.sleeping t.stopped
        (change_comma_for_period t.us) t.ni (take 9 (percentage floats t.mem_cache t.mem_total)))

  -- Whatever block malloc gives for the size asked for: from a report of which `read` gets all (less
  -- than the 363 bytes of limit_read, without a NUL), whose words are those of top's three lines up
  -- to buff/cache and fewer than 1000 after them, the line has, behind what the block held, the
  -- number of tasks, then of the sleeping and of the stopped ones, then the user's and the nice share
  -- of the CPU, then the first nine bytes of the share of the memory that buffers and caches take,
  -- with a newline in the place of the last byte; commas are periods in the first, the fourth and the
  -- fifth. If these texts do not fit into the block, the publisher writes behind it instead.
  pub update_send_info_parses :
      (malloc : ℕ → Block) (file : Bytes) (t : Top) (rest : List Bytes)
      → HasNoNul file
      → length file < limit_read
      → tokens (codes " ") file ≡ words t ++ rest
      → length rest < 1000
      → (front : Bytes) × (last : ℕ) × (line_values (line_block malloc t) t ≡ front ++ (last ∷ []))
        × (update_send_info floats malloc (some file) ≡ (
            if ltb (length (line_values (line_block malloc t) t)) (line_block malloc t).usable
            then ok (front ++ newline)
            else fault overrun))
  update_send_info_parses malloc file t rest no_nul short e few =
      let (front, last, p, q) =
        join_full_info-join malloc (change_comma_for_period t.total) t.sleeping t.stopped
          (change_comma_for_period t.us) t.ni
          (take 9 (percentage floats t.mem_cache t.mem_total)) in
      (
        front,
        last,
        p,
        update_send_info_fields_joined floats malloc file t rest no_nul short e few ∙ q,
      )
