-- ===== src/Threads/Growth.antt =====
-- The directory of clients along the runs of the threads.
use mqttv.Base.{ℕ, ◌≡◌, refl, ap, ◌∙◌, ◌⊎◌, inl, inr, List, [], ◌∷◌, ◌++◌, append_assoc, append-nil}
use mqttv.Net.{Net, Io}
use mqttv.Broker.Directory.{Client, directory}
use mqttv.Broker.Directory.Growth.{register-directory}
use mqttv.Threads.{
  System, Step, accept, enter, leave, pass, turn, Reach, next, wait_mutex, post_mutex, wait_control,
}
use mqttv.Threads.Invariant.{Reach-IsValid}

module _ (net : Net) where
  -- The client that a step adds to the directory, if it adds one.
  pub Grows : System net → System net → Type 0
  Grows s t =
      (directory t.broker ≡ directory s.broker)
      ⊎ ((c : Client) × (directory t.broker ≡ directory s.broker ++ c ∷ []))

  Step-Grows :
      {slots : ℕ} {io : Io net} {s t : System net}
      → Reach net slots io s
      → Step net slots s t
      → Grows s t
  unfolding Grows directory wait_mutex post_mutex wait_control
  Step-Grows r (accept connfd io' h e) = inl (ap (λ u. directory u.broker) e)
  Step-Grows r (enter connfd us free g e) = inl (ap (λ u. directory u.broker) e)
  Step-Grows {slots} {s = s} r (leave connfd information b' io' us h g e) =
      let (c, _, p) =
        (register-directory net slots information connfd s.broker s.io (Reach-IsValid net r)).at
          (b', io') h in
      inr (c, ap (λ u. directory u.broker) e ∙ p)
  Step-Grows r (pass us free g e) = inl (ap (λ u. directory u.broker) e)
  Step-Grows r (turn i j io' us h g e) = inl (ap (λ u. directory u.broker) e)

  -- A run from one state to another.
  pub data Run (slots : ℕ) (s : System net) : System net → Type 0 where
    here : Run slots s s
    more : {t u : System net} → Run slots s t → Step net slots t u → Run slots s u

  Reach-Run :
      {slots : ℕ} {io : Io net} {s t : System net}
      → Reach net slots io s
      → Run slots s t
      → Reach net slots io t
  Reach-Run r here = r
  Reach-Run r (more run st) = next (Reach-Run r run) st

  -- Whatever the threads do after a state that they can reach, the clients of its directory stay as
  -- they are, with their names, descriptors, subscriptions and rows, in their order, and new ones
  -- come behind them.
  pub directory_grows :
      {slots : ℕ} {io : Io net} {s t : System net}
      → Reach net slots io s
      → Run slots s t
      → (cs : List Client) × (directory t.broker ≡ directory s.broker ++ cs)
  unfolding Grows
  directory_grows r here = ([], rw append-nil refl)
  directory_grows {s = s} r (more run st) =
      let (cs, p) = directory_grows r run in
      elim (Step-Grows (Reach-Run r run) st) [
        | inl q ↦ (cs, q ∙ p)
        | inr (c, q) ↦ (
          cs ++ c ∷ [],
          q ∙ ap (λ xs. xs ++ c ∷ []) p ∙ append_assoc (directory s.broker) cs (c ∷ []),
        )
      ]
