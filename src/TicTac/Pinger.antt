-- ===== src/TicTac/Pinger.antt =====
-- lab10/tcp/src/server.c: one round of `pinger_routine`. What `epoll_wait` returns for a client, and
-- the message that `read` leaves, are the environment's.
pub mod Laws
use agh_sem4_sysopy.Common.{ℕ, zero, suc, ◌+◌, Bool, true, false, if◌then◌else◌}
use agh_sem4_sysopy.Common.Int.{ℤ, negsuc, eqb_ℤ}
use agh_sem4_sysopy.TicTac.Message.{Message, max_client_count}
use agh_sem4_sysopy.TicTac.Server.{Server, client, socket_of, write, disconnect_client}

-- What the environment answers for one client: `available`, and the message read.
pub record Answer : Type 0 where
  pub available : ℤ
  pub message : Message

-- The body of the loop for the client `i`. The message sent is whatever `msg` holds.
unfoldable pub ping_client : Server → Message → ℕ → Answer → Message × Server
ping_client s msg i answer =
    let s1 = write s (socket_of s i) msg in
    if (client s i).taken
    then (if eqb_ℤ answer.available (negsuc 0)
        then (msg, disconnect_client s1 i)
        else (answer.message, s1))
    else (msg, s)

-- The clients from `i` on, `n` of them.
unfoldable pub ping_from : ℕ → ℕ → (ℕ → Answer) → Message → Server → Message × Server
ping_from zero i answers msg s = (msg, s)
ping_from (suc n) i answers msg s =
    let (msg', s') = ping_client s msg i (answers i) in ping_from n (i + 1) answers msg' s'

unfoldable pub pinger_round : (ℕ → Answer) → Message → Server → Message × Server
pinger_round answers msg s = ping_from max_client_count 0 answers msg s
