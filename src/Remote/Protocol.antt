-- ===== src/Remote/Protocol.antt =====
-- The messages between the browser and a device: what `Link.receive` reads and `Link.call` sends
-- (web/static/remote-ui.js), with the fields that internal/remote/session.go gives them.
use net_conductor.Base.{ℕ, Bool, List}
use net_conductor.Base.Text.{Text}
use net_conductor.Base.Int.{ℤ}

-- A row of a directory listing.
pub record Entry : Type 0 where
  pub name : Text
  pub directory : Bool
  pub size : ℕ

-- The results of the operations. `value` is any other JSON value, as its text.
pub data Reply : Type 0 where
  listing : Text → List Entry → Reply
  piece : Text → Bool → Reply
  image : Text → Reply
  value : Text → Reply

-- `result` carries id, ok, result and error; `event` any other type, with its `data`.
pub data Message : Type 0 where
  chunk : ℕ → Text → Bool → Message
  result : ℕ → Bool → Reply → Text → Message
  event : Text → Text → Message

-- A quotient of two pixel counts, such as (e.clientX - r.left) / r.width.
pub record Ratio : Type 0 where
  pub over : ℤ
  pub under : ℕ

pub data Input : Type 0 where
  move : Ratio → Ratio → Input
  button : ℕ → Bool → Input
  key : Text → Bool → Input
  wheel : ℤ → Input
  release : Input

-- `{ op, ...fields }`
pub data Request : Type 0 where
  terminal : Request
  stdin : Text → Request
  resize : ℕ → ℕ → Request
  list : Text → Request
  rename : Text → Text → Request
  delete : Text → Request
  mkdir : Text → Request
  create : Text → Request
  write : Text → ℕ → Text → Request
  read : Text → ℕ → Request
  input : Input → Request
  frame : Request
