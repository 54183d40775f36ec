-- ===== src/Remote/Files/Download.antt =====
-- `download` of web/static/remote-ui.js: the loop of read calls, over the answers of the device and
-- the state of the dialog after each of them.
pub mod Content
pub mod Broken
use net_conductor.Base.{
  ℕ, ◌+◌, ◌*◌, Bool, true, false, Option, none, some, List, [], ◌∷◌, ◌++◌, ltb, if◌then◌else◌,
  length,
}
use net_conductor.Base.Text.{Text, codes}
use net_conductor.Remote.Base64.{Bytes, decode}
use net_conductor.Remote.Protocol.{Entry, Reply, piece, listing, image, value, Request, read}
use net_conductor.Remote.Link.Receive.{bad_base64}

abbrev pub max_file : ℕ
max_file = 128 * 1024 * 1024

abbrev pub over_single : Text
over_single = codes "单文件上限 128 MB"

abbrev pub over_total : Text
over_total = codes "文件超过大小上限"

-- How one call of the link came out.
pub data Answer : Type 0 where
  replied : Reply → Answer
  failed : Text → Answer

-- An answer, and whether the dialog is still open (`active`) when the loop goes on with it.
pub record Turn : Type 0 where
  pub answer : Answer
  pub active : Bool

-- What became of the transfer: the parts are saved as one file, the dialog was left, an exception
-- goes to `report`, or a call has no answer yet.
pub data End : Type 0 where
  saved : List Bytes → End
  left : End
  thrown : Text → End
  awaiting : End

-- `atob(part.data)`. A result without `data` makes it `atob("undefined")`, which throws.
abbrev pub data_of : Answer → Option Text
data_of (failed e) = none
data_of (replied (piece d eof)) = some d
data_of (replied (listing p es)) = some (codes "undefined")
data_of (replied (image i)) = some (codes "undefined")
data_of (replied (value v)) = some (codes "undefined")

abbrev pub eof_of : Answer → Bool
eof_of (replied (piece d eof)) = eof
eof_of (replied (listing p es)) = false
eof_of (replied (image i)) = false
eof_of (replied (value v)) = false
eof_of (failed e) = false

abbrev pub error_of : Answer → Text
error_of (failed e) = e
error_of (replied r) = []

-- The file is saved unless the dialog was left during the last call.
abbrev pub finish : Bool → List Bytes → End
finish active parts = if active then saved parts else left

-- `while (active) { … }` and what follows, with the requests in the order in which they go out.
unfoldable pub download_loop : Text → List Turn → Bool → List Bytes → ℕ → List Request × End
download_loop path ts false parts offset = ([], left)
download_loop path [] true parts offset = (read path offset ∷ [], awaiting)
download_loop path (t ∷ ts) true parts offset = elim (data_of t.answer) [
  | none ↦ (read path offset ∷ [], thrown (error_of t.answer))
  | some d ↦ elim (decode d) [
    | none ↦ (read path offset ∷ [], thrown bad_base64)
    | some b ↦
        let rest = download_loop path ts t.active (parts ++ b ∷ []) (offset + length b) in
        if ltb max_file (offset + length b)
        then (read path offset ∷ [], thrown over_total)
        else if eof_of t.answer
        then (read path offset ∷ [], finish t.active (parts ++ b ∷ []))
        else (read path offset ∷ rest.0, rest.1)
  ]
]

-- `download(e)`, at the joined path of the entry
unfoldable pub download : Text → Entry → List Turn → Bool → List Request × End
download path e ts active =
    if ltb max_file e.size then ([], thrown over_single) else download_loop path ts active [] 0
