-- ===== src/TicTac/Table/Search.antt =====
-- lab10/tcp/src/server.c: what the three searches of the table of clients find.
use agh_sem4_sysopy.Common.{ℕ, zero, suc, ◌≡◌, true, false, List, [], ◌∷◌, arith, get_or}
use agh_sem4_sysopy.Libc.Strings.{strn_eq}
use agh_sem4_sysopy.TicTac.Message.{Client, client_name_len}
use agh_sem4_sysopy.TicTac.Server.{no_client}
use agh_sem4_sysopy.TicTac.Table.{check_username}

abbrev pub slot : List Client → ℕ → Client
slot clients i = get_or clients i no_client

pub check_username-true :
    (clients : List Client) (name : List ℕ)
    → check_username clients name ≡ true
    → (i : ℕ) → (slot clients i).taken ≡ true
    → strn_eq client_name_len name (slot clients i).name ≡ false
unfolding check_username
check_username-true [] name e i t = absurd (ground arith)
check_username-true (c ∷ clients) name e zero t = ground arith
check_username-true (c ∷ clients) name e (suc i) t =
    check_username-true clients name (ground arith) i t
