-- ===== src/TicTac/Game/Ending.antt =====
-- lab10/tcp/src/server.c, `game_connection`: how a game ends, what it leaves in the table of clients
-- and what it wrote last; and the games that cannot end.
use agh_sem4_sysopy.Common.{
  ℕ, suc, zero, ◌+◌, ◌≡◌, refl, sym, subst, ◌∙◌, ◌⊎◌, inl, inr, ◌≢◌, false, List, [], ◌∷◌, arith,
  ◌==◌, set, get_or, Bool-cases, ne_of_==,
}
use agh_sem4_sysopy.TicTac.Message.{
  MessageType, MessageData, Message, Client, msg_move, msg_end, msg_disconnect, msg_waiting,
  is_disconnect,
}
use agh_sem4_sysopy.TicTac.Board.{check_board}
use agh_sem4_sysopy.TicTac.Server.{
  Event, wrote, closed, Server, no_client, socket_of, disconnect_client, send_msg_end,
  send_msg_start, send_msg_update, send_msg_disconnect, send_msg_waiting,
}
use agh_sem4_sysopy.TicTac.Game.Steps.{game_loop_rule}
use agh_sem4_sysopy.TicTac.Game.{
  Reply, Game, returned, continues, GameResult, won, left, reading, player_of, turn, start_game,
  abandon, game_connection, send_msg_move,
}

-- The table with the slot of one client freed, and of two.
abbrev pub free_slot : List Client → ℕ → List Client
free_slot clients a = set clients a (record (get_or clients a no_client) { taken = false })

abbrev pub freed : List Client → ℕ → ℕ → List Client
freed clients a b = free_slot (free_slot clients a) b

abbrev end_message : ℕ → Message
end_message winner = record { type = msg_end; content = MessageData.winner winner }

-- A message of type `type` with the rest as the server last had it.
abbrev typed : MessageType → MessageData → Message
typed type content = record { type = type; content = content }

-- Freeing a slot leaves every socket number in the table.
socket_of-free :
    (clients : List Client) (a b : ℕ)
    → (get_or (free_slot clients a) b no_client).socket_fd ≡ (get_or clients b no_client).socket_fd
socket_of-free [] a b = refl
socket_of-free (c ∷ clients) zero zero = refl
socket_of-free (c ∷ clients) zero (suc b) = refl
socket_of-free (c ∷ clients) (suc a) zero = refl
socket_of-free (c ∷ clients) (suc a) (suc b) = socket_of-free clients a b

module _ (s : Server) (player1 player2 : ℕ) where
  -- How the server stands after a game that is over.
  abbrev pub Released : GameResult → Type 0
  Released (reading g) = g.server.clients ≡ s.clients
  Released (won winner board s') =
      (rest : List Event) × (s'.clients ≡ freed s.clients player1 player2)
      × (s'.log
          ≡ closed (socket_of s player2)
            ∷ closed (socket_of s player1)
            ∷ wrote (socket_of s player2) (end_message winner)
            ∷ wrote (socket_of s player1) (end_message winner)
            ∷ rest)
      × (winner ≢ 0)
  Released (left s') =
      (player : ℕ) × (other : ℕ) × (stale : MessageData) × (before : MessageData) × (rest : List
        Event)
      × (((player ≡ player1) × (other ≡ player2)) ⊎ ((player ≡ player2) × (other ≡ player1)))
      × (s'.clients ≡ freed s.clients player other)
      × (s'.log
          ≡ wrote (socket_of s other) (typed msg_waiting stale)
            ∷ closed (socket_of s other)
            ∷ wrote (socket_of s other) (typed msg_disconnect stale)
            ∷ closed (socket_of s player)
            ∷ wrote (socket_of s player) (typed msg_move before)
            ∷ rest)

  keeps_clients :
      (g g' : Game) (reply : Reply)
      → turn player1 player2 g reply ≡ continues g'
      → g'.server.clients ≡ g.server.clients
  unfolding turn send_msg_move send_msg_update
  keeps_clients g g' reply h = ground arith

  start-clients : (start_game s player1 player2).server.clients ≡ s.clients
  unfolding start_game send_msg_start send_msg_update
  start-clients = refl

  won-Released :
      (g : Game)
      → g.server.clients ≡ s.clients
      → (check_board g.board == 0) ≡ false
      → Released (
          won
            (check_board g.board)
            g.board
            (send_msg_end g.server player1 player2 (check_board g.board)))
  unfolding send_msg_end disconnect_client
  won-Released g e n =
      rw (e, socket_of-free s.clients player1 player2)
        (g.server.log, refl, refl, ne_of_== (check_board g.board) 0 n)

  pair_of :
      (round : ℕ)
      → ((player_of player1 player2 round ≡ player1)
          × (player_of player1 player2 (round + 1) ≡ player2))
        ⊎ ((player_of player1 player2 round ≡ player2)
            × (player_of player1 player2 (round + 1) ≡ player1))
  pair_of round = ground arith

  abandon_lem :
      (g : Game) (reply : Reply)
      → g.server.clients ≡ s.clients
      → let p = player_of player1 player2 g.round in
        let o = player_of player1 player2 (g.round + 1) in
        let sent = send_msg_move g.msg g.server p reply in
        Released (left (abandon sent.0 sent.1 p o))
  unfolding abandon send_msg_move send_msg_disconnect send_msg_waiting disconnect_client
  abandon_lem g reply e =
      let p = player_of player1 player2 g.round in
      let o = player_of player1 player2 (g.round + 1) in
      rw e (
        p,
        o,
        MessageData.move reply.move,
        g.msg.content,
        g.server.log,
        pair_of g.round,
        refl,
        rw (socket_of-free (free_slot s.clients p) o o, socket_of-free s.clients p o),
      )

  left-Released :
      (g : Game) (reply : Reply) (s' : Server)
      → g.server.clients ≡ s.clients
      → turn player1 player2 g reply ≡ returned s'
      → Released (left s')
  unfolding turn
  left-Released g reply s' e h = elim (Bool-cases (is_disconnect reply.type)) [
    | inl gone ↦
        let p = player_of player1 player2 g.round in
        let o = player_of player1 player2 (g.round + 1) in
        let sent = send_msg_move g.msg g.server p reply in
        let same : s' ≡ abandon sent.0 sent.1 p o = ground arith in
        subst (λ t. Released (left t)) (sym same) (abandon_lem g reply e)
    | inr stays ↦ absurd (ground arith)
  ]

  -- A game frees the slots of both its players, and changes no other client: when it is won both
  -- are sent the same MSG_END and then closed; when the player to move disconnects, that player is
  -- closed, and the other is sent MSG_DISCONNECT, closed, and then sent MSG_WAITING on the socket
  -- just closed. While the game still runs the table is as it was.
  pub game_connection-Released :
      (replies : List Reply) → Released (game_connection s player1 player2 replies)
  unfolding game_connection
  game_connection-Released replies =
      game_loop_rule player1 player2 (λ g. g.server.clients ≡ s.clients) Released (λ g e n. e)
        (λ g e n. won-Released g e n)
        (λ g reply e n.
          (λ s' h. left-Released g reply s' e h, λ g' h. keeps_clients g g' reply h ∙ e))
        (start_game s player1 player2) replies start-clients
