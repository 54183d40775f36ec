-- ===== src/Desktop/Input/Mailbox.antt =====
-- What the input helper promises: a box for one input. A new input is taken when the box is empty
-- and refused when it is not, and the input in the box is done or fails once.
use net_conductor.Base.{ℕ, suc, ◌≡◌, ◌⊎◌, Option, none, some, List, [], ◌∷◌}
use net_conductor.Base.Text.{Text}
use net_conductor.Remote.Protocol.{Input}
use net_conductor.Desktop.Input.{
  Effect, spawned, wrote, ended, killed, resolved, rejected, tooltip, Desk, input, Event, step,
}

pub data Outcome : Type 0 where
  done : ℕ → Outcome
  failed : ℕ → Outcome

-- How many inputs there were, the one in the box, and the outcomes, newest first.
pub data Box : Type 0 where
  box : ℕ → Option ℕ → List Outcome → Box

-- What the box does.
pub data Move : Box → Box → Type 0 where
  take : {n : ℕ} {o : List Outcome} → Move (box n none o) (box (suc n) (some (suc n)) o)
  refuse :
      {n p : ℕ} {o : List Outcome}
      → Move (box n (some p) o) (box (suc n) (some p) (failed (suc n) ∷ o))
  complete : {n p : ℕ} {o : List Outcome} → Move (box n (some p) o) (box n none (done p ∷ o))
  drop : {n p : ℕ} {o : List Outcome} → Move (box n (some p) o) (box n none (failed p ∷ o))

pub data Moves : Box → Box → Type 0 where
  stay : {b : Box} → Moves b b
  move : {a b c : Box} → Moves a b → Move b c → Moves a c

-- The outcomes that the helper's log tells of.
abbrev pub outcomes : List Effect → List Outcome
outcomes [] = []
outcomes (spawned c ∷ es) = outcomes es
outcomes (wrote c i ∷ es) = outcomes es
outcomes (ended c ∷ es) = outcomes es
outcomes (killed c ∷ es) = outcomes es
outcomes (resolved n ∷ es) = done n ∷ outcomes es
outcomes (rejected n e ∷ es) = failed n ∷ outcomes es
outcomes (tooltip t ∷ es) = outcomes es

abbrev pub view : Desk → Box
view s = box s.inputs s.pending (outcomes s.log)

-- A call of `input`, or an event of the helper's process and of the system.
pub data Call : Type 0 where
  give : Input → ℕ → Call
  happen : Event → Call

abbrev pub on_call : Call → Desk → Desk
on_call (give i now) s = input i now s
on_call (happen e) s = step e s

abbrev pub run_calls : List Call → Desk → Desk
run_calls [] s = s
run_calls (c ∷ cs) s = run_calls cs (on_call c s)

-- A call makes a move of the box, or none.
Does : Desk → Desk → Type 0
Does s s' = (view s' ≡ view s) ⊎ Move (view s) (view s')

record IsSame (s t : Desk) : Type 0 where
  inputs_same : t.inputs ≡ s.inputs
  pending_same : t.pending ≡ s.pending
  outcomes_same : outcomes t.log ≡ outcomes s.log
