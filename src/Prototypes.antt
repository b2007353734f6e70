-- ===== src/Prototypes.antt =====
-- The programs below prototypes/: two to try the sockets with, and one to print from.
pub mod EchoServer
pub mod EchoClient
use mqttv.Base.{ℕ, zero, suc, List, [], ◌∷◌, ◌++◌}
use mqttv.CString.{Bytes, codes}

-- main of trash/sleep_test.c: what its endless loop has printed after a number of rounds.
unfoldable pub sleep_test : ℕ → List Bytes → List Bytes
sleep_test zero log = log
sleep_test (suc n) log = sleep_test n (log ++ codes "CPU_USAGE\n" ∷ [])
