-- ===== src/Console/Terminal.antt =====
-- `openSSH`, `closeDialog` and the dialog's cancel in web/static/app.js: the terminals with their
-- WebSockets, numbered in the order in which they are opened. `term` and `socket` are shared; each
-- session's callbacks keep their own socket.
pub mod Closing
pub mod Own
use net_conductor.Base.{
  ℕ, suc, Bool, true, false, ◌==◌, Option, none, some, List, [], ◌∷◌, if◌then◌else◌,
}
use net_conductor.Base.Text.{Text}
use net_conductor.Base.Table.{Table, get, put}

-- `readyState` of a socket; none is open before its `onopen`, nor after `close()`.
pub data Ready : Type 0 where
  connecting : Ready
  connected : Ready
  closing : Ready
  closed : Ready

-- What a session does: it sends the size of terminal `t`, or what was typed there, to its device,
-- and writes to a terminal what its device sent, or the notice of its end.
pub data Effect : Type 0 where
  sent_size : (session t : ℕ) → Effect
  sent_typed : (session t : ℕ) → Text → Effect
  wrote : (session t : ℕ) → Text → Effect
  wrote_notice : (session t : ℕ) → Effect

pub record Console : Type 0 where
  pub opened : ℕ
  pub term : Option ℕ
  pub socket : Option ℕ
  pub ready : Table Ready
  pub log : List Effect

abbrev pub start : Console
start = record { opened = 0; term = none; socket = none; ready = []; log = [] }

abbrev pub state_of : ℕ → Console → Option Ready
state_of k c = get k c.ready

abbrev pub set_ready : ℕ → Ready → Console → Console
set_ready k r c = record c { ready = put k r c.ready }

abbrev pub closed_by : Option Ready → ℕ → Console → Console
closed_by (some connecting) k c = set_ready k closing c
closed_by (some connected) k c = set_ready k closing c
closed_by (some closing) k c = c
closed_by (some closed) k c = c
closed_by none k c = c

-- `socket?.close()`
unfoldable pub close_socket : Option ℕ → Console → Console
unfolding get put
close_socket none c = c
close_socket (some k) c = closed_by (state_of k c) k c

-- `closeDialog()`, for the terminals; `dispose` ends the callbacks of the terminal itself.
unfoldable pub close_dialog : Console → Console
unfolding close_socket
close_dialog c = record (close_socket c.socket c) { socket = none; term = none }

-- The dialog's "cancel".
unfoldable pub cancel : Console → Console
unfolding close_socket
cancel c = record (close_socket c.socket c) { term = none }

-- `openSSH(id)`
unfoldable pub open_ssh : Console → Console
unfolding close_dialog put
open_ssh c =
    let d = close_dialog c in
    record d {
      opened = suc d.opened;
      term = some d.opened;
      socket = some d.opened;
      ready = put d.opened connecting d.ready;
    }

abbrev pub note : Effect → Console → Console
note e c = record c { log = e ∷ c.log }

-- `term?.…`
abbrev pub with_term : (ℕ → Effect) → Option ℕ → Console → Console
with_term f none c = c
with_term f (some t) c = note (f t) c

-- `ws.onopen`; without a terminal, `term.clear()` throws and nothing is sent.
abbrev pub on_open : Option Ready → ℕ → Console → Console
on_open (some connecting) k c = with_term (sent_size k) c.term (set_ready k connected c)
on_open (some connected) k c = c
on_open (some closing) k c = c
on_open (some closed) k c = c
on_open none k c = c

-- `ws.onmessage`; messages arrive while the socket is open.
abbrev pub on_message : Option Ready → ℕ → Text → Console → Console
on_message (some connected) k x c = with_term (λ t. wrote k t x) c.term c
on_message (some connecting) k x c = c
on_message (some closing) k x c = c
on_message (some closed) k x c = c
on_message none k x c = c

-- `ws.onclose`, after a close from either side or a failure.
abbrev pub on_closed : Option Ready → ℕ → Console → Console
on_closed none k c = c
on_closed (some closed) k c = c
on_closed (some connecting) k c = with_term (wrote_notice k) c.term (set_ready k closed c)
on_closed (some connected) k c = with_term (wrote_notice k) c.term (set_ready k closed c)
on_closed (some closing) k c = with_term (wrote_notice k) c.term (set_ready k closed c)

-- `ws.onerror`, which comes before the close.
abbrev pub on_failed : Option Ready → ℕ → Console → Console
on_failed none k c = c
on_failed (some closed) k c = c
on_failed (some connecting) k c = with_term (wrote_notice k) c.term c
on_failed (some connected) k c = with_term (wrote_notice k) c.term c
on_failed (some closing) k c = with_term (wrote_notice k) c.term c

abbrev pub is_open : Option Ready → Bool
is_open (some connected) = true
is_open (some connecting) = false
is_open (some closing) = false
is_open (some closed) = false
is_open none = false

abbrev pub is_term : ℕ → Option ℕ → Bool
is_term t none = false
is_term t (some k) = k == t

-- `term.onData` of session `k`, whose terminal reports while it is not disposed of.
abbrev pub on_typed : ℕ → Text → Console → Console
on_typed k x c =
    if is_term k c.term
    then (if is_open (state_of k c) then note (sent_typed k k x) c else c)
    else c

-- The observer of session `k`.
abbrev pub on_resized : ℕ → Option ℕ → Console → Console
on_resized k none c = c
on_resized k (some t) c = if is_open (state_of k c) then note (sent_size k t) c else c

pub data Event : Type 0 where
  ssh_clicked : Event
  close_clicked : Event
  cancelled : Event
  socket_opened : ℕ → Event
  socket_message : ℕ → Text → Event
  socket_failed : ℕ → Event
  socket_closed : ℕ → Event
  typed : ℕ → Text → Event
  resized : ℕ → Event

unfoldable pub step : Event → Console → Console
unfolding open_ssh close_dialog cancel get put
step ssh_clicked c = open_ssh c
step close_clicked c = close_dialog c
step cancelled c = cancel c
step (socket_opened k) c = on_open (state_of k c) k c
step (socket_message k x) c = on_message (state_of k c) k x c
step (socket_failed k) c = on_failed (state_of k c) k c
step (socket_closed k) c = on_closed (state_of k c) k c
step (typed k x) c = on_typed k x c
step (resized k) c = on_resized k c.term c

unfoldable pub run : List Event → Console → Console
unfolding step
run [] c = c
run (e ∷ es) c = run es (step e c)
