-- ===== src/Remote/Link/State.antt =====
-- The fields of a `Link`, what it does to its surroundings, and `useRelay`, `fail` and `close`.
use net_conductor.Base.{ℕ, Bool, true, false, ◌||◌, not, List, [], ◌∷◌, ◌==◌, if◌then◌else◌}
use net_conductor.Base.Text.{Text, codes}
use net_conductor.Base.Table.{Table}
use net_conductor.Remote.Base64.{Bytes}
use net_conductor.Remote.Protocol.{Reply, Request}

-- What the link does to the page and the network.
pub data Effect : Type 0 where
  status : Text → Effect
  delivered : Text → Text → Effect
  resolved : ℕ → Reply → Effect
  rejected : ℕ → Text → Effect
  refused : Request → Text → Effect
  sent_direct : ℕ → Request → Effect
  sent_relay : ℕ → Request → Effect
  sent_offer : Effect
  sent_ping : Effect
  closed_socket : Effect
  closed_peer : Effect

-- The promise `ready`.
pub data Ready : Type 0 where
  undecided : Ready
  opened : Ready
  broken : Text → Ready

-- `readyState` of the socket and of the data channel
pub data Channel : Type 0 where
  connecting open_now closing shut : Channel

-- An entry of `pending`: the promise that its `resolve` and `reject` settle, named by the number
-- of its call, and the handle of its timer.
pub record Call : Type 0 where
  pub promise : ℕ
  pub timer : ℕ

pub record Part : Type 0 where
  pub buffers : List Bytes
  pub size : ℕ

-- `waiting` are the calls that await `ready`, oldest first. `timers` are the armed time limits of
-- calls; `fallback`, `keepalive` and `stats` say whether those timers are armed. `channel_full`
-- says whether a send on the data channel throws. `polls` counts the calls of `getStats` that have
-- not returned. `log` has the newest effect at its head.
pub record Link : Type 0 where
  pub seq : ℕ
  pub pending : Table Call
  pub parts : Table Part
  pub closed : Bool
  pub relay : Bool
  pub offered : Bool
  pub ready : Ready
  pub channel : Channel
  pub channel_full : Bool
  pub socket : Channel
  pub waiting : List Request
  pub timers : List ℕ
  pub fallback : Bool
  pub keepalive : Bool
  pub stats : Bool
  pub polls : ℕ
  pub log : List Effect

abbrev pub start : Link
start = record {
  seq = 0;
  pending = [];
  parts = [];
  closed = false;
  relay = false;
  offered = false;
  ready = undecided;
  channel = connecting;
  channel_full = false;
  socket = connecting;
  waiting = [];
  timers = [];
  fallback = false;
  keepalive = true;
  stats = true;
  polls = 0;
  log = [];
}

abbrev pub note : Effect → Link → Link
note e l = record l { log = e ∷ l.log }

-- `resolve()` and `reject(err)` of `ready`: only the first one counts.
abbrev pub settle_ready : Ready → Ready → Ready
settle_ready undecided r = r
settle_ready opened r = opened
settle_ready (broken e) r = broken e

abbrev pub is_open : Channel → Bool
is_open open_now = true
is_open connecting = false
is_open closing = false
is_open shut = false

-- `clearTimeout(h)`
unfoldable pub disarm : ℕ → List ℕ → List ℕ
disarm h [] = []
disarm h (t ∷ ts) = if t == h then ts else t ∷ disarm h ts

unfoldable pub use_relay : Link → Link
use_relay l = if l.closed || not l.offered then l else record l {
  relay = true;
  ready = settle_ready l.ready opened;
  log = status (codes "服务器中转 · HTTPS") ∷ l.log;
}

-- The loop of `close` over `pending.values()`.
unfoldable pub reject_all : Text → Table Call → Link → Link
reject_all e [] l = l
reject_all e ((k, c) ∷ m) l =
    reject_all e m
      (record l { timers = disarm c.timer l.timers; log = rejected c.promise e ∷ l.log })

-- What `close` does to a link that is open. `ws.close()` and `pc.close()` close the data channel
-- too.
unfoldable pub shut_down : Text → Link → Link
unfolding reject_all
shut_down e l =
    let m =
      reject_all e l.pending
        (record l { closed = true; fallback = false; keepalive = false; stats = false }) in
    record m {
      pending = [];
      parts = [];
      socket = closing;
      channel = shut;
      log = closed_peer ∷ closed_socket ∷ m.log;
    }

unfoldable pub close : Text → Link → Link
close e l = if l.closed then l else shut_down e l

unfoldable pub fail : Text → Link → Link
fail e l =
    if l.closed
    then l
    else close e (record l { ready = settle_ready l.ready (broken e); log = status e ∷ l.log })

abbrev pub session_closed : Text
session_closed = codes "会话已关闭"
