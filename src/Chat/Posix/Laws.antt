-- ===== src/Chat/Posix/Laws.antt =====
-- lab06/src/POSIX/server.c: whom a CONNECT pairs, and what `removeclient` removes.
use agh_sem4_sysopy.Common.{
  ℕ, ◌≡◌, refl, ◌⊎◌, inl, inr, ◌≢◌, Bool, true, false, List, [], ◌∷◌, arith, without,
  remove_first-without, Bool-cases,
}
use agh_sem4_sysopy.Common.Int.{ℤ, eqb_ℤ, eq_of_eqb_ℤ, eqb_ℤ_refl}
use agh_sem4_sysopy.Libc.Numbers.{strtol, to_int}
use agh_sem4_sysopy.Chat.Message.{Message}
use agh_sem4_sysopy.Chat.Posix.{
  Client, Server, ok, exits, path_of, has_pid, set_active, deactivate, removeclient, no_client,
  handle_connect,
}

-- No client of the list with the pid is free.
abbrev pub IsBusy : ℤ → List Client → Type 0
IsBusy pid [] = Unit
IsBusy pid (c ∷ cs) = ((c.pid ≡ pid) × (c.active ≡ false)) ⊎ ((c.pid ≢ pid) × IsBusy pid cs)

deactivate-IsBusy : (pid : ℤ) (cs : List Client) → IsBusy pid (deactivate pid cs)
unfolding set_active
deactivate-IsBusy pid [] = tt
deactivate-IsBusy pid (c ∷ cs) = elim (Bool-cases (eqb_ℤ c.pid pid)) [
  | inl e ↦ rw e (inl (eq_of_eqb_ℤ c.pid pid e, refl))
  | inr e ↦ rw e (inr (λ q. (ground (arith, eqb_ℤ_refl pid)), deactivate-IsBusy pid cs))
]

deactivate-keeps_IsBusy :
    (x pid : ℤ) (cs : List Client) → IsBusy pid cs → IsBusy pid (deactivate x cs)
unfolding set_active
deactivate-keeps_IsBusy x pid [] b = tt
deactivate-keeps_IsBusy x pid (c ∷ cs) b = ground (arith, deactivate-keeps_IsBusy x pid cs)

module _ (getpid : ℤ) (opens delivers : List ℕ → Bool) where
  -- A CONNECT to a client whose queue opens and takes messages pairs the two, whatever the marks of
  -- either: each is sent the path of the other's queue, also if they already talk to somebody else,
  -- or if the server does not know them. Afterwards both are busy.
  pub posix_connect-pairs :
      (message : Message) (s : Server) (id : ℤ)
      → to_int (strtol message.text) ≡ id
      → opens (path_of id) ≡ true
      → opens (path_of message.sender_pid) ≡ true
      → delivers (path_of id) ≡ true
      → delivers (path_of message.sender_pid) ≡ true
      → (s' : Server) × (handle_connect getpid opens delivers message s ≡ ok s')
        × (s'.log
            ≡ (
              path_of message.sender_pid,
              record message { sender_pid = getpid; text = path_of id },
            )
              ∷ (
                path_of id,
                record message { sender_pid = getpid; text = path_of message.sender_pid },
              )
              ∷ s.log)
        × IsBusy id s'.clients
        × IsBusy message.sender_pid s'.clients
  unfolding handle_connect
  posix_connect-pairs message s id e oi os di ds = (
    record {
      clients = deactivate id (deactivate message.sender_pid s.clients);
      log =
          (path_of message.sender_pid, record message { sender_pid = getpid; text = path_of id })
          ∷ (path_of id, record message { sender_pid = getpid; text = path_of message.sender_pid })
          ∷ s.log;
    },
    rw e (ground arith),
    refl,
    deactivate-IsBusy id (deactivate message.sender_pid s.clients),
    deactivate-keeps_IsBusy id message.sender_pid (deactivate message.sender_pid s.clients)
        (deactivate-IsBusy message.sender_pid s.clients),
  )

  -- A CONNECT to a client whose queue does not open ends the server.
  pub posix_connect-unknown :
      (message : Message) (s : Server)
      → opens (path_of (to_int (strtol message.text))) ≡ false
      → (s' : Server) × (handle_connect getpid opens delivers message s ≡ exits s')
  unfolding handle_connect
  posix_connect-unknown message s h =
      let cs =
        deactivate (to_int (strtol message.text)) (deactivate message.sender_pid s.clients) in
      (record s { clients = cs }, ground arith)

-- `removeclient` removes exactly the first client with the pid, and keeps the order of the others.
pub posix_removeclient-without :
    (pid : ℤ) (cs : List Client) → removeclient pid cs ≡ without (has_pid pid) cs
unfolding removeclient
posix_removeclient-without pid cs = remove_first-without no_client (has_pid pid) cs
