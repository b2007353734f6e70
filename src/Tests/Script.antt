-- ===== src/Tests/Script.antt =====
-- A concrete network for the examples: lines that are waiting, one stream for all readers, and what
-- was written so far.
use mqttv.Base.{
  ℕ, zero, suc, ◌≡◌, refl, ◌≢◌, false, Option, none, some, List, [], ◌∷◌, ◌++◌, arith, replicate,
}
use mqttv.Int.{ℤ, pos}
use mqttv.Result.{ok}
use mqttv.CString.{Bytes, codes, str_eq, str_eq_refl}
use mqttv.Net.{Net, Io}
use mqttv.Broker.{Broker, init}
use mqttv.Broker.Tables.{IsValid, Filled}

pub record Wire : Type 0 where
  pub waiting : List Bytes
  pub sent : List (ℤ × Bytes)

abbrev pub next_line : ℤ → List Bytes → List (ℤ × Bytes) → Bytes × ℤ × Wire
next_line fd [] sent = ([], fd, record { waiting = []; sent = sent })
next_line fd (l ∷ ls) sent = (l, fd, record { waiting = ls; sent = sent })

abbrev pub script : Net
script = record {
  World = Wire;
  Reader = ℤ;
  rio_readinitb = λ fd. fd;
  rio_readlineb = λ rio n w. ok (next_line rio w.waiting w.sent);
  rio_writen = λ fd s w. ok (record w { sent = w.sent ++ (fd, s) ∷ [] });
  stamp = λ w. codes "01/01/2022 [00:00:00]: ";
}

abbrev pub wire : List Bytes → Wire
wire lines = record { waiting = lines; sent = [] }

abbrev pub on_wire : List Bytes → Io script
on_wire lines = record { world = wire lines; log = [] }

abbrev pub clean_row : List ℤ
clean_row = pos 0 ∷ pos 0 ∷ pos 0 ∷ pos 0 ∷ pos 0 ∷ pos 0 ∷ []

-- A publisher n1 at descriptor 4 and a subscriber sub to n1 at descriptor 5.
abbrev pub two_clients : Broker
two_clients = record {
  client_name_list = some (codes "n1") ∷ some (codes "sub") ∷ replicate 8 none;
  client_fd_list = pos 4 ∷ pos 5 ∷ replicate 8 (pos 0);
  fd_idx = 2;
  client_sus_list = some (codes "NONE") ∷ some (codes "n1") ∷ replicate 8 none;
  topic_list = replicate 10 clean_row;
  sem_control = 1;
  sem_mutex = 1;
}

abbrev eight_free : Filled 0 (replicate 8 none)
eight_free = (refl, (refl, (refl, (refl, (refl, (refl, (refl, (refl, refl))))))))

pub two_clients-IsValid : IsValid two_clients
two_clients-IsValid = record {
  names_size = refl;
  fds_size = refl;
  sus_size = refl;
  topics_size = refl;
  count = omega arith;
  names = ((codes "n1", refl), ((codes "sub", refl), eight_free));
  sus = ((codes "NONE", refl), ((codes "n1", refl), eight_free));
}

-- Ten publishers of the same name.
abbrev pub ten_clients : Broker
ten_clients = record init {
  client_name_list = replicate 10 (some (codes "n1"));
  fd_idx = 10;
  client_sus_list = replicate 10 (some (codes "NONE"));
  sem_control = 9;
}

all_set : (s : Bytes) (n : ℕ) → Filled n (replicate n (some s))
all_set s zero = refl
all_set s (suc n) = ((s, refl), all_set s n)

pub ten_clients-IsValid : IsValid ten_clients
ten_clients-IsValid = record {
  names_size = refl;
  fds_size = refl;
  sus_size = refl;
  topics_size = refl;
  count = omega arith;
  names = all_set (codes "n1") 10;
  sus = all_set (codes "NONE") 10;
}

-- Two publishers and no subscription.
abbrev pub two_publishers : Broker
two_publishers = record two_clients {
  client_sus_list = some (codes "NONE") ∷ some (codes "NONE") ∷ replicate 8 none;
}

pub two_publishers-IsValid : IsValid two_publishers
two_publishers-IsValid = record {
  names_size = refl;
  fds_size = refl;
  sus_size = refl;
  topics_size = refl;
  count = omega arith;
  names = ((codes "n1", refl), ((codes "sub", refl), eight_free));
  sus = ((codes "NONE", refl), ((codes "NONE", refl), eight_free));
}

-- The subscriber alone, to a node that is not there.
abbrev pub lost_client : Broker
lost_client = record two_clients {
  client_name_list = some (codes "n2") ∷ some (codes "sub") ∷ replicate 8 none;
}

pub lost_client-IsValid : IsValid lost_client
lost_client-IsValid = record {
  names_size = refl;
  fds_size = refl;
  sus_size = refl;
  topics_size = refl;
  count = omega arith;
  names = ((codes "n2", refl), ((codes "sub", refl), eight_free));
  sus = ((codes "NONE", refl), ((codes "n1", refl), eight_free));
}

-- Texts that strcmp tells apart.
pub differ : (s t : Bytes) → str_eq s t ≡ false → s ≢ t
differ s t h e = cc (h, str_eq_refl s, e)

pub differ_some : (s t : Bytes) → str_eq s t ≡ false → ◌≢◌ {A = Option Bytes} (some s) (some t)
differ_some s t h e = cc (h, str_eq_refl s, e)
