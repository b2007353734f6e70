-- ===== src/Threads/Strtok.antt =====
-- `split` of broker_server.c call of strtok by call of strtok: strtok keeps where it stands in one
-- pointer of the process, which all threads share. `saved` is the text that it points to; a search
-- behind the last token finds none. The other models take a split as one step.
pub mod Apart
pub mod Mixed
use mqttv.Base.{ℕ, ◌<◌, ◌≡◌, Option, none, some, List, [], ◌∷◌, ◌++◌, length}
use mqttv.CString.{Bytes}
use mqttv.CString.Split.{strtok}
use mqttv.Threads.Places.{Turns, total}

-- Where a thread stands in its call split(linea, delim, argv), with an array of `cap` cells.
pub data Splitting : Type 0 where
  before : (cap : ℕ) (linea delim : Bytes) → Splitting
  within : (cap : ℕ) (linea delim : Bytes) (argv : List Bytes) → Splitting  -- a token is stored
  finished : (cap : ℕ) (linea delim : Bytes) (argv : List Bytes) → Splitting

pub record Shared : Type 0 where
  pub saved : Bytes
  pub spots : List Splitting

-- token = strtok(linea, delim), and argv[i] = token if there is one.
pub data Begin (s t : Shared) : Type 0 where
  finds_first :
      (cap : ℕ) (linea delim token rest : Bytes) (us : List Splitting)
      → strtok delim linea ≡ some (token, rest)
      → 0 < cap
      → Turns s.spots (before cap linea delim) (within cap linea delim (token ∷ [])) us
      → t ≡ record { saved = rest; spots = us }
      → Begin s t
  finds_none :
      (cap : ℕ) (linea delim : Bytes) (us : List Splitting)
      → strtok delim linea ≡ none
      → Turns s.spots (before cap linea delim) (finished cap linea delim []) us
      → t ≡ record { saved = []; spots = us }
      → Begin s t

-- token = strtok(NULL, delim), and argv[i] = token if there is one. A thread that writes behind its
-- array makes no step.
pub data Continue (s t : Shared) : Type 0 where
  finds_next :
      (cap : ℕ) (linea delim token rest : Bytes) (argv : List Bytes) (us : List Splitting)
      → strtok delim s.saved ≡ some (token, rest)
      → length argv < cap
      → Turns s.spots (within cap linea delim argv) (within cap linea delim (argv ++ token ∷ [])) us
      → t ≡ record { saved = rest; spots = us }
      → Continue s t
  ends :
      (cap : ℕ) (linea delim : Bytes) (argv : List Bytes) (us : List Splitting)
      → strtok delim s.saved ≡ none
      → Turns s.spots (within cap linea delim argv) (finished cap linea delim argv) us
      → t ≡ record { saved = []; spots = us }
      → Continue s t

-- The calls of the threads in any order.
pub data AnyOrder (s : Shared) : Shared → Type 0 where
  here : AnyOrder s s
  begins : {t u : Shared} → AnyOrder s t → Begin t u → AnyOrder s u
  continues : {t u : Shared} → AnyOrder s t → Continue t u → AnyOrder s u

abbrev pub cutting : Splitting → ℕ
cutting (before cap linea delim) = 0
cutting (within cap linea delim argv) = 1
cutting (finished cap linea delim argv) = 0

-- The orders in which a thread begins to split only when no other is splitting.
pub data OneByOne (s : Shared) : Shared → Type 0 where
  nothing : OneByOne s s
  begins_alone :
      {t u : Shared} → OneByOne s t → total cutting t.spots ≡ 0 → Begin t u → OneByOne s u
  goes_on : {t u : Shared} → OneByOne s t → Continue t u → OneByOne s u
