-- ===== src/TicTac/Pinger/Laws.antt =====
-- lab10/tcp/src/server.c, `pinger_routine`: whom a round disconnects.
use agh_sem4_sysopy.Common.{
  ℕ, zero, suc, ◌+◌, ◌≤◌, ◌<◌, ◌≡◌, leb, ltb, ◌&&◌, false, arith, ◌==◌, get_or-set, length,
  length-set, if◌then◌else◌,
}
use agh_sem4_sysopy.Common.Int.{ℤ, negsuc, eqb_ℤ}
use agh_sem4_sysopy.TicTac.Message.{Message, Client}
use agh_sem4_sysopy.TicTac.Server.{Server, socket_of, write, disconnect_client, no_client}
use agh_sem4_sysopy.TicTac.Table.Search.{slot}
use agh_sem4_sysopy.TicTac.Table.Invariant.{IsTable, disconnect_client-IsTable, no_slot}
use agh_sem4_sysopy.TicTac.Pinger.{Answer, ping_client, ping_from, pinger_round}

ping_client-IsTable :
    (s : Server) (msg : Message) (i : ℕ) (a : Answer)
    → i < 32
    → IsTable s.clients
    → IsTable (ping_client s msg i a).1.clients
unfolding ping_client
ping_client-IsTable s msg i a h t =
    ground (arith, disconnect_client-IsTable (write s (socket_of s i) msg) i h t)

ping_from-IsTable :
    (n i : ℕ) (answers : ℕ → Answer) (msg : Message) (s : Server)
    → i + n ≤ 32
    → IsTable s.clients
    → IsTable (ping_from n i answers msg s).1.clients
unfolding ping_from
ping_from-IsTable zero i answers msg s h t = t
ping_from-IsTable (suc n) i answers msg s h t =
    let r = ping_client s msg i (answers i) in
    ping_from-IsTable n (i + 1) answers r.0 r.1 (omega arith)
      (ping_client-IsTable s msg i (answers i) (omega arith) t)

-- A client's slot after its turn: freed if `epoll_wait` failed for it.
pinged : Client → ℤ → Client
pinged c available = if eqb_ℤ available (negsuc 0) then record c { taken = false } else c

ping_client-slot :
    (s : Server) (msg : Message) (i j : ℕ) (a : Answer)
    → i < length s.clients
    → slot (ping_client s msg i a).1.clients j
      ≡ (if i == j then pinged (slot s.clients j) a.available else slot s.clients j)
unfolding ping_client disconnect_client pinged
ping_client-slot s msg i j a h =
    ground (arith, get_or-set s.clients i j (record (slot s.clients i) { taken = false }) no_client)

ping_client-length :
    (s : Server) (msg : Message) (i : ℕ) (a : Answer)
    → length (ping_client s msg i a).1.clients ≡ length s.clients
unfolding ping_client disconnect_client
ping_client-length s msg i a =
    ground (arith, length-set s.clients i (record (slot s.clients i) { taken = false }))

ping_from-slot :
    (n i j : ℕ) (answers : ℕ → Answer) (msg : Message) (s : Server)
    → i + n ≤ length s.clients
    → slot (ping_from n i answers msg s).1.clients j ≡ (
        if leb i j && ltb j (i + n)
        then pinged (slot s.clients j) (answers j).available
        else slot s.clients j)
unfolding ping_from
ping_from-slot zero i j answers msg s h = ground arith
ping_from-slot (suc n) i j answers msg s h =
    let r = ping_client s msg i (answers i) in
    ground (
      arith,
      ping_from-slot n (i + 1) j answers r.0 r.1
          (omega (arith, ping_client-length s msg i (answers i))),
      ping_client-slot s msg i j (answers i) (omega arith),
    )

round-slot :
    (j n : ℕ) (c c' : Client) (available : ℤ)
    → c' ≡ (if leb 0 j && ltb j (0 + n) then pinged c available else c)
    → (n ≤ j → c ≡ no_client)
    → c' ≡ (if eqb_ℤ available (negsuc 0) then record c { taken = false } else c)
unfolding pinged
round-slot j n c c' available e beyond = ground (arith)

-- A round of pings frees the slots of the clients for which `epoll_wait` returned -1, and changes no
-- other: a client for which it timed out, with 0, stays connected. Distinct names and the single
-- waiting client are kept.
pub pinger_round-slot :
    (answers : ℕ → Answer) (msg : Message) (s : Server)
    → IsTable s.clients
    → IsTable (pinger_round answers msg s).1.clients
      × ((j : ℕ)
          → slot (pinger_round answers msg s).1.clients j ≡ (
              if eqb_ℤ (answers j).available (negsuc 0)
              then record (slot s.clients j) { taken = false }
              else slot s.clients j))
unfolding pinger_round
pinger_round-slot answers msg s t = (
  ping_from-IsTable 32 0 answers msg s (omega arith) t,
  λ j.
      round-slot j 32 (slot s.clients j) _ (answers j).available
        (ping_from-slot 32 0 j answers msg s (omega (arith, t.size)))
        (λ h. no_slot s.clients j (omega (arith, t.size))),
)
