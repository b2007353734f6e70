-- ===== src/Sockets/Robust.antt =====
-- open_listenfd and open_clientfd of csapp.c, with the wrappers that the programs call: other than
-- those of common.c, they leave the process where a call around them fails.
use mqttv.Base.{
  ◌≡◌, refl, ◌∙◌, ◌⊎◌, inl, inr, Bool, true, false, Option, none, some, List, [], ◌∷◌,
  if◌then◌else◌, Bool-cases,
}
use mqttv.Int.{ℤ, pos, minus_one, is_negative}
use mqttv.Result.{Result, ok, exits, ◌>>=◌, ◌>>◌}

-- An address with the system's answers: to `socket`, whether `setsockopt` succeeds, whether `bind`
-- or `connect` does, and whether `close` does.
pub record Candidate : Type 0 where
  pub socket : ℤ
  pub option_set : Bool
  pub accepted : Bool
  pub close_works : Bool

-- Both print to stderr and leave the process.
abbrev pub unix_error {ℓ} : {A : Type ℓ} → Result A
unix_error = exits (pos 0)

abbrev pub gai_error {ℓ} : {A : Type ℓ} → Result A
gai_error = exits (pos 0)

-- Close and Setsockopt, by whether the call that they wrap works.
unfoldable pub close : Bool → Result (Unit {0})
close close_works = if close_works then ok tt else unix_error

unfoldable pub setsockopt : Bool → Result (Unit {0})
setsockopt option_set = if option_set then ok tt else unix_error

-- Both loops: only that of open_listenfd calls Setsockopt.
unfoldable pub robust_walk : (sets_option : Bool) → List Candidate → Result (Option ℤ)
robust_walk sets_option [] = ok none
robust_walk sets_option (p ∷ ps) =
    let rest = robust_walk sets_option ps in
    if is_negative p.socket then rest else do
      if sets_option then setsockopt p.option_set else ok tt
      if p.accepted then ok (some p.socket) else close p.close_works >> rest

-- The return value, with -1 where no address worked or `listen` fails.
abbrev pub returned : Bool → Option ℤ → ℤ
returned listening none = minus_one
returned listening (some fd) = if listening then fd else minus_one

-- `none` is an error of getaddrinfo, at which gai_error leaves the process.
unfoldable pub robust_listenfd : Option (List Candidate) → Bool → Result ℤ
robust_listenfd none listening = gai_error
robust_listenfd (some listp) listening = do
  found ← robust_walk true listp
  ok (returned listening found)

unfoldable pub robust_clientfd : Option (List Candidate) → Result ℤ
robust_clientfd none = gai_error
robust_clientfd (some listp) = do found ← robust_walk false listp; ok (returned true found)

-- `if ((rc = ...) < 0) unix_error(...); return rc;`, where unix_error leaves the process with 0
unfoldable pub or_unix_error : Result ℤ → Result ℤ
or_unix_error r = do rc ← r; if is_negative rc then unix_error else ok rc

-- Open_listenfd
unfoldable pub must_listenfd : Option (List Candidate) → Bool → Result ℤ
must_listenfd listp listening = or_unix_error (robust_listenfd listp listening)

-- Open_clientfd
unfoldable pub must_clientfd : Option (List Candidate) → Result ℤ
must_clientfd listp = or_unix_error (robust_clientfd listp)

-- The socket of an address of the list that the system accepted.
abbrev pub IsAccepted : ℤ → List Candidate → Type 0
IsAccepted fd [] = ⊥
IsAccepted fd (p ∷ ps) =
    ((p.socket ≡ fd) × (is_negative fd ≡ false) × (p.accepted ≡ true)) ⊎ IsAccepted fd ps

abbrev Walked : List Candidate → Result (Option ℤ) → Type 0
Walked ps r =
    (r ≡ ok none)
    ⊎ (r ≡ exits (pos 0))
    ⊎ ((fd : ℤ) × (r ≡ ok (some fd)) × (is_negative fd ≡ false) × IsAccepted fd ps)

later :
    (p : Candidate) (ps : List Candidate) (r r' : Result (Option ℤ))
    → r' ≡ r
    → Walked ps r
    → Walked (p ∷ ps) r'
later p ps r r' e (inl h) = inl (e ∙ h)
later p ps r r' e (inr (inl h)) = inr (inl (e ∙ h))
later p ps r r' e (inr (inr (fd, h, k, acc))) = inr (inr (fd, e ∙ h, k, inr acc))

close_lem : (b : Bool) → (close b ≡ ok tt) ⊎ (close b ≡ exits (pos 0))
unfolding close
close_lem true = inl refl
close_lem false = inr refl

option_lem :
    (sets_option b : Bool)
    → ((if sets_option then setsockopt b else ok tt) ≡ ok tt)
      ⊎ ((if sets_option then setsockopt b else ok tt) ≡ exits (pos 0))
unfolding setsockopt
option_lem false b = inl refl
option_lem true true = inl refl
option_lem true false = inr refl

robust_walk_lem :
    (sets_option : Bool) (ps : List Candidate) → Walked ps (robust_walk sets_option ps)
unfolding robust_walk ◌>>=◌
robust_walk_lem sets_option [] = inl refl
robust_walk_lem sets_option (p ∷ ps) =
    let rest = robust_walk_lem sets_option ps in
    elim (Bool-cases (is_negative p.socket)) [
      | inl e ↦ later p ps _ _ (rw e refl) rest
      | inr e ↦ elim (option_lem sets_option p.option_set) [
        | inr o ↦ inr (inl (rw e (rw o refl)))
        | inl o ↦ elim (Bool-cases p.accepted) [
          | inl a ↦ inr (inr (p.socket, rw e (rw o (rw a refl)), e, inl (refl, e, a)))
          | inr a ↦ elim (close_lem p.close_works) [
            | inl w ↦ later p ps _ _ (rw e (rw o (rw a (rw w refl)))) rest
            | inr w ↦ inr (inl (rw e (rw o (rw a (rw w refl)))))
          ]
        ]
      ]
    ]

-- Open_clientfd and Open_listenfd either return a descriptor that is not negative and that belongs
-- to an address that the system accepted, or leave the process with 0: a test of the result for a
-- negative value, as in the broker's main, never succeeds.
pub must_listenfd_lem :
    (ps : List Candidate) (listening : Bool)
    → ((must_listenfd (some ps) listening ≡ exits (pos 0))
        ⊎ ((fd : ℤ) × (must_listenfd (some ps) listening ≡ ok fd)
            × (is_negative fd ≡ false)
            × IsAccepted fd ps))
      × ((must_clientfd (some ps) ≡ exits (pos 0))
          ⊎ ((fd : ℤ) × (must_clientfd (some ps) ≡ ok fd)
              × (is_negative fd ≡ false)
              × IsAccepted fd ps))
unfolding must_listenfd must_clientfd robust_listenfd robust_clientfd or_unix_error ◌>>=◌
must_listenfd_lem ps listening = (listens, connects)
  where
    listens :
        (must_listenfd (some ps) listening ≡ exits (pos 0))
        ⊎ ((fd : ℤ) × (must_listenfd (some ps) listening ≡ ok fd)
            × (is_negative fd ≡ false)
            × IsAccepted fd ps)
    listens = elim (robust_walk_lem true ps) [
      | inl h ↦ inl (rw h refl)
      | inr (inl h) ↦ inl (rw h refl)
      | inr (inr (fd, h, k, acc)) ↦ elim (Bool-cases listening) [
        | inl l ↦ inr (fd, rw h (rw l (rw k refl)), k, acc)
        | inr l ↦ inl (rw h (rw l refl))
      ]
    ]

    connects :
        (must_clientfd (some ps) ≡ exits (pos 0))
        ⊎ ((fd : ℤ) × (must_clientfd (some ps) ≡ ok fd)
            × (is_negative fd ≡ false)
            × IsAccepted fd ps)
    connects = elim (robust_walk_lem false ps) [
      | inl h ↦ inl (rw h refl)
      | inr (inl h) ↦ inl (rw h refl)
      | inr (inr (fd, h, k, acc)) ↦ inr (fd, rw h (rw k refl), k, acc)
    ]
