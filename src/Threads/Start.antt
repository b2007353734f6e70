-- ===== src/Threads/Start.antt =====
-- How `main` of broker_server.c starts, with Open_listenfd of csapp.c.
use mqttv.Base.{
  ◌<◌, ◌≡◌, refl, ◌⊎◌, inl, inr, Bool, true, false, some, List, [], ◌∷◌, ◌++◌, arith, length,
  length-append, append_assoc,
}
use mqttv.Int.{ℤ, pos, is_negative}
use mqttv.Result.{Result, ok, exits, ◌>>=◌, store_fits}
use mqttv.CString.{Bytes, codes, newline}
use mqttv.Net.{Net, Io, write_log, maxline}
use mqttv.Threads.Setup.{setup}
use mqttv.Sockets.Robust.{Candidate, must_listenfd, must_listenfd_lem, IsAccepted}

module _ (net : Net) where
  -- The call of Open_listenfd, with the answers of the system.
  abbrev pub listens : List Candidate → Bool → Bytes → Io net → Result (ℤ × Io net)
  listens ps listening port io = must_listenfd (some ps) listening >>= λ fd. ok (fd, io)

  -- The line that write_log makes of a text.
  abbrev pub logged : Io net → Bytes → Bytes
  logged io text = (net.stamp io.world ++ text) ++ newline

  write_log_fits :
      (text : Bytes) (io : Io net)
      → length (net.stamp io.world) < 100
      → length text < 100
      → write_log net text io ≡ ok (record io { log = io.log ++ logged io text ∷ [] })
  unfolding write_log ◌>>=◌
  write_log_fits text io l m =
      rw
        (store_fits maxline (net.stamp io.world ++ text)
          (omega (arith, length-append (net.stamp io.world) text)))
        refl

  -- If both semaphores open and the text of the time is shorter than 100 bytes, `main` comes to its
  -- loop with a descriptor that is not negative and belongs to an address that the system accepted,
  -- and has logged two lines, or Open_listenfd leaves the process with 0; its own test for a negative
  -- descriptor never leaves it. If a semaphore does not open, it leaves with 1.
  pub setup_lem :
      (ps : List Candidate) (listening : Bool) (io : Io net)
      → length (net.stamp io.world) < 100
      → ((setup net true true (listens ps listening) io ≡ exits (pos 0))
          ⊎ ((fd : ℤ) × (setup net true true (listens ps listening) io
                ≡ ok (
                  fd,
                  record io {
                    log =
                        io.log
                        ++ logged io (codes "Esperando por conexiones")
                          ∷ logged io (codes "Servidor escuchando en el puerto: 8090")
                          ∷ [];
                  },
                ))
              × (is_negative fd ≡ false)
              × IsAccepted fd ps))
        × (setup net false true (listens ps listening) io ≡ exits (pos 1))
        × (setup net true false (listens ps listening) io ≡ exits (pos 1))
  unfolding setup ◌>>=◌
  setup_lem ps listening io l =
      let first = codes "Esperando por conexiones" in
      let second = codes "Servidor escuchando en el puerto: 8090" in
      let io₁ = record io { log = io.log ++ logged io first ∷ [] } in
      let p = write_log_fits first io l (omega arith) in
      let q = write_log_fits second io₁ l (omega arith) in
      (
        elim (must_listenfd_lem ps listening).0 [
          | inl e ↦ inl (rw p (rw e refl))
          | inr (fd, e, k, acc) ↦ inr (
            fd,
            rw p (
                rw e (
                  rw q (
                    rw k (
                      rw (append_assoc io.log (logged io first ∷ []) (logged io second ∷ []))
                        refl)))),
            k,
            acc,
          )
        ],
        refl,
        refl,
      )
