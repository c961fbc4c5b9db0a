-- ===== src/Chat/Server/Registry.antt =====
-- lab06/src/SystemV/server.c: `removeclient` against the list without one client.
use agh_sem4_sysopy.Common.{◌≡◌, List, without, remove_first-without}
use agh_sem4_sysopy.Common.Int.{ℤ}
use agh_sem4_sysopy.Chat.Server.{Client, has_id, removeclient, no_client}

-- The loop that shifts the clients down, and the shorter length, remove exactly the first client
-- with the id, and keep the others in their order; where there is none, nothing changes.
pub removeclient-without : (id : ℤ) (cs : List Client) → removeclient id cs ≡ without (has_id id) cs
unfolding removeclient
removeclient-without id cs = remove_first-without no_client (has_id id) cs
