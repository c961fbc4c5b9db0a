-- ===== src/TicTac/Player/Verdict.antt =====
-- lab10/tcp/src/client.c with lab10/tcp/src/server.c: what the two players of a game are told of
-- its end.
use agh_sem4_sysopy.Common.{ℕ, ◌+◌, ◌≤◌, ◌≡◌, ◌⊎◌, true, false, List, arith}
use agh_sem4_sysopy.Common.Int.{ℤ}
use agh_sem4_sysopy.TicTac.Message.{MessageData, msg_end}
use agh_sem4_sysopy.TicTac.Board.{tick1, tick2, is_full, check_board}
use agh_sem4_sysopy.TicTac.Board.Winner.{
  IsGame, columns_of, others_of, check_board_lem, check_board_single, check_board_double,
}
use agh_sem4_sysopy.TicTac.Player.{
  ended_draw, ended_won, ended_lost, Player, Step, exits, View, handle_message, handle_end, put,
}

-- The end of a game, as the player with `symbol` sees it.
abbrev pub told : View → Player → ℕ → ℤ → Step
told v p winner position =
    handle_message v p (record { type = msg_end; content = MessageData.winner winner }) position

module _ (v : View) (reads : (c : ℕ) → v.winner_of (MessageData.winner c) ≡ c) where
  told_lem :
      (p : Player) (winner : ℕ) (position : ℤ)
      → told v p winner position ≡ exits (handle_end p winner)
  unfolding handle_message
  told_lem p winner position = ground (arith, reads winner)

  -- The two players of a game whose winner completed one column, and nothing else, with a field
  -- still free: the winner is told of the victory, the other of the defeat.
  pub told-single :
      (board : List ℕ) (winner loser : Player) (position : ℤ)
      → IsGame board
      → ((winner.symbol ≡ tick1)
          × (loser.symbol ≡ tick2)
          × (columns_of board tick1 ≡ 1)
          × (columns_of board tick2 ≡ 0))
        ⊎ ((winner.symbol ≡ tick2)
            × (loser.symbol ≡ tick1)
            × (columns_of board tick1 ≡ 0)
            × (columns_of board tick2 ≡ 1))
      → others_of board tick1 ≡ 0
      → others_of board tick2 ≡ 0
      → is_full board ≡ false
      → (told v winner (check_board board) position ≡ exits (put winner ended_won))
        × (told v loser (check_board board) position ≡ exits (put loser ended_lost))
  unfolding handle_end
  told-single board winner loser position game won o x free =
      let e = check_board_single board winner.symbol game (ground arith) o x free in
      (
        ground (arith, told_lem winner (check_board board) position),
        ground (arith, told_lem loser (check_board board) position),
      )

  -- If the winning move completes a column and one more line, with a field still free, both players
  -- are told that they lost.
  pub told-double :
      (board : List ℕ) (p : Player) (position : ℤ)
      → IsGame board
      → ((columns_of board tick1 ≡ 1)
          × (others_of board tick1 ≡ 1)
          × (columns_of board tick2 ≡ 0)
          × (others_of board tick2 ≡ 0))
        ⊎ ((columns_of board tick1 ≡ 0)
            × (others_of board tick1 ≡ 0)
            × (columns_of board tick2 ≡ 1)
            × (others_of board tick2 ≡ 1))
      → is_full board ≡ false
      → (p.symbol ≡ tick1) ⊎ (p.symbol ≡ tick2)
      → told v p (check_board board) position ≡ exits (put p ended_lost)
  unfolding handle_end
  told-double board p position game won free s =
      let e = check_board_double board game won free in
      ground (arith, told_lem p (check_board board) position, e.0, e.1, e.2)

  -- If a column is complete on a full board, both players are told of a draw.
  pub told-full :
      (board : List ℕ) (p : Player) (position : ℤ)
      → IsGame board
      → 1 ≤ columns_of board tick1 + columns_of board tick2
      → is_full board ≡ true
      → told v p (check_board board) position ≡ exits (put p ended_draw)
  unfolding handle_end
  told-full board p position game won full =
      ground (arith, check_board_lem board game, told_lem p (check_board board) position)
