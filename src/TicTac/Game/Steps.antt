-- ===== src/TicTac/Game/Steps.antt =====
-- lab10/tcp/src/server.c, `game_connection`: one round of the loop as equations.
use agh_sem4_sysopy.Common.{
  ℕ, ◌≡◌, refl, ◌⊎◌, inl, inr, true, false, List, [], ◌∷◌, arith, ◌==◌, Bool-cases, ◌+◌, ◌-◌, set,
}
use agh_sem4_sysopy.Common.Int.{pos_part}
use agh_sem4_sysopy.TicTac.Board.{check_board}
use agh_sem4_sysopy.TicTac.Server.{Server, send_msg_end}
use agh_sem4_sysopy.TicTac.Game.{
  Reply, Game, Turn, returned, continues, GameResult, won, left, reading, turn, game_loop,
  is_refused, tick_of,
}

module _ (player1 player2 : ℕ) where
  -- Induction over a run of the loop: a property of games that each turn keeps gives a property of
  -- the result.
  pub game_loop_rule {ℓ κ} :
      (P : Game → Type ℓ) (Q : GameResult → Type κ)
      → ((g : Game) → P g → (check_board g.board == 0) ≡ true → Q (reading g))
      → ((g : Game)
          → P g
          → (check_board g.board == 0) ≡ false
          → Q (
              won
                (check_board g.board)
                g.board
                (send_msg_end g.server player1 player2 (check_board g.board))))
      → ((g : Game) (reply : Reply)
          → P g
          → (check_board g.board == 0) ≡ true
          → ((s : Server) → turn player1 player2 g reply ≡ returned s → Q (left s))
            × ((g' : Game) → turn player1 player2 g reply ≡ continues g' → P g'))
      → (g : Game) (replies : List Reply) → P g
      → Q (game_loop player1 player2 g replies)
  unfolding game_loop
  game_loop_rule P Q waits ends keeps g [] p = elim (Bool-cases (check_board g.board == 0)) [
    | inl e ↦ rw e (waits g p e)
    | inr e ↦ rw e (ends g p e)
  ]
  game_loop_rule P Q waits ends keeps g (reply ∷ replies) p =
      elim (Bool-cases (check_board g.board == 0)) [
        | inl e ↦
            rw (e, game_loop)
              (next (turn player1 player2 g reply) (keeps g reply p e).0 (λ g' h.
                game_loop_rule P Q waits ends keeps g' replies ((keeps g reply p e).1 g' h)))
        | inr e ↦ rw (e, game_loop) (ends g p e)
      ]
    where
      next :
          (t : Turn)
          → ((s : Server) → t ≡ returned s → Q (left s))
          → ((g' : Game) → t ≡ continues g' → Q (game_loop player1 player2 g' replies))
          → Q (elim t [ returned s ↦ left s | continues g' ↦ game_loop player1 player2 g' replies ])
      next (returned s) l c = l s refl
      next (continues g') l c = c g' refl

  -- A turn that goes on either asks the same player again, or fills the field and passes on.
  pub turn-continues :
      (g g' : Game) (reply : Reply)
      → turn player1 player2 g reply ≡ continues g'
      → ((is_refused g.board reply.move ≡ true) × (g'.board ≡ g.board) × (g'.round ≡ g.round))
        ⊎ ((is_refused g.board reply.move ≡ false)
            × (g'.board ≡ set g.board (pos_part reply.move - 1) (tick_of g.round))
            × (g'.round ≡ g.round + 1))
  unfolding turn
  turn-continues g g' reply h = ground arith
