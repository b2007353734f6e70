-- ===== src/Threads/Setup.antt =====
-- `main` of broker_server.c up to its loop. Of the calls before the log is open nothing is kept
-- but that the log is new.
use mqttv.Base.{ℕ, Bool, true, false, ◌++◌, if◌then◌else◌}
use mqttv.Int.{ℤ, pos, minus_one, is_negative}
use mqttv.Result.{Result, ok, exits, ◌>>=◌, ◌>>◌, store}
use mqttv.CString.{Bytes, codes}
use mqttv.Net.{Net, Io, write_log}

abbrev pub log_msg_size : ℕ
log_msg_size = 4096

abbrev pub broker_port : Bytes
broker_port = codes "8090"

abbrev pub leave_unless : Bool → ℤ → Result (Unit {0})
leave_unless true code = ok tt
leave_unless false code = exits code

module _ (net : Net) where
  abbrev main_log : Bytes → Io net → Result (Io net)
  main_log text io = do
    main_log_message ← store log_msg_size text
    write_log net main_log_message io

  -- `control` and `mutex` say whether sem_open succeeds, and `open_listening` is Open_listenfd of
  -- csapp.c. The result is the listening descriptor.
  unfoldable pub setup :
      Bool → Bool → (Bytes → Io net → Result (ℤ × Io net)) → Io net → Result (ℤ × Io net)
  setup control mutex open_listening io = do
    leave_unless control (pos 1)
    leave_unless mutex (pos 1)
    io₁ ← main_log (codes "Esperando por conexiones") io
    (listenfd, io₂) ← open_listening broker_port io₁
    io₃ ← main_log (codes "Servidor escuchando en el puerto: " ++ broker_port) io₂
    if is_negative listenfd then exits minus_one else ok (listenfd, io₃)
