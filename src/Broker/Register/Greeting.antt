-- ===== src/Broker/Register/Greeting.antt =====
-- What the broker makes of the two lines that a client sends when it connects.
use mqttv.Base.{◌≤◌, ◌<◌, ◌≡◌, [], ◌∷◌, ◌++◌, arith, length, length-append}
use mqttv.Result.{ok, ◌>>=◌, store_fits, overrun, fault}
use mqttv.CString.{Bytes, codes, newline, c_string_id, chop-append, HasNoNul}
use mqttv.CString.Values.{HasNoNul-append}
use mqttv.Broker.Register.{line_text}
use mqttv.Publisher
use mqttv.Subscriber

pub line_text-newline : (s : Bytes) → HasNoNul s → line_text (s ++ newline) ≡ ok s
unfolding line_text
line_text-newline [] h = rw (c_string_id newline ((omega arith), tt)) (chop-append [] b'\n')
line_text-newline (c ∷ s) h =
    rw (c_string_id ((c ∷ s) ++ newline) (HasNoNul-append (c ∷ s) newline h ((omega arith), tt)))
      (chop-append (c ∷ s) b'\n')

pub greeting_lines :
    (name topic : Bytes)
    → length name < 19
    → length topic < 19
    → Subscriber.greeting 3 name topic ≡ ok ((name ++ newline) ∷ (topic ++ newline) ∷ [])
unfolding Subscriber.greeting ◌>>=◌
greeting_lines name topic l m = rw (store_fits 20 name (omega arith)) (
    rw (store_fits 20 topic (omega arith)) (
      rw (store_fits 20 (name ++ newline) (omega (arith, length-append name newline)))
        (rw (store_fits 20 (topic ++ newline) (omega (arith, length-append topic newline))))))

-- A subscriber whose name and topic its buffers have room for sends two lines, from which the broker
-- reads the same name and topic.
pub subscriber_greeting :
    (name topic : Bytes)
    → HasNoNul name
    → HasNoNul topic
    → length name < 19
    → length topic < 19
    → (first : Bytes) × (second : Bytes) × (Subscriber.greeting 3 name topic
        ≡ ok (first ∷ second ∷ []))
      × (line_text first ≡ ok name)
      × (line_text second ≡ ok topic)
subscriber_greeting name topic h k l m = (
  name ++ newline,
  topic ++ newline,
  greeting_lines name topic l m,
  line_text-newline name h,
  line_text-newline topic k,
)

-- A publisher whose name its buffer has room for sends its name and the text NONE.
pub publisher_greeting :
    (name : Bytes)
    → HasNoNul name
    → length name < 19
    → (first : Bytes) × (second : Bytes) × (Publisher.greeting 2 name ≡ ok (first ∷ second ∷ []))
      × (line_text first ≡ ok name)
      × (line_text second ≡ ok (codes "NONE"))
unfolding Publisher.greeting ◌>>=◌
publisher_greeting name h l = (
  name ++ newline,
  codes "NONE\n",
  rw (store_fits 20 name (omega arith))
      (rw (store_fits 20 (name ++ newline) (omega (arith, length-append name newline)))),
  line_text-newline name h,
  line_text-newline (codes "NONE") (omega arith),
)

-- A longer name overruns the buffer of either client.
pub greeting_overruns :
    (name topic : Bytes)
    → 19 ≤ length name
    → (Publisher.greeting 2 name ≡ fault overrun)
      × (Subscriber.greeting 3 name topic ≡ fault overrun)
unfolding Publisher.greeting Subscriber.greeting ◌>>=◌
greeting_overruns name topic h = (
  ground (arith, length-append name newline),
  ground (arith, length-append name newline, length-append topic newline),
)
