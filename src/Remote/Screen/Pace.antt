-- ===== src/Remote/Screen/Pace.antt =====
-- The pace of the moves, and a view whose dialog is closed.
use net_conductor.Base.{ℕ, ◌+◌, ◌≤◌, ◌≡◌, List, [], ◌∷◌}
use net_conductor.Base.Text.{Text}
use net_conductor.Remote.Screen.{Effect, moved, sent, asked_frame, shown, reported, Screen}

-- The times of the moves that were sent, newest first.
abbrev pub move_times : List Effect → List ℕ
move_times [] = []
move_times (moved now x y ∷ es) = now ∷ move_times es
move_times (sent i ∷ es) = move_times es
move_times (asked_frame ∷ es) = move_times es
move_times (shown t ∷ es) = move_times es
move_times (reported e ∷ es) = move_times es

-- Each time is 80 or more after the one before it.
abbrev pub Spaced : List ℕ → Type 0
Spaced [] = Unit
Spaced (t ∷ []) = Unit
Spaced (t ∷ u ∷ ts) = (u + 80 ≤ t) × Spaced (u ∷ ts)

abbrev newest : List ℕ → ℕ
newest [] = 0
newest (t ∷ ts) = t

record IsPaced (s : Screen) : Type 0 where
  last : newest (move_times s.log) ≡ s.move
  spaced : Spaced (move_times s.log)

-- What leaves the moves alone.
record Keeps (s s' : Screen) : Type 0 where
  same_move : s'.move ≡ s.move
  same_times : move_times s'.log ≡ move_times s.log
