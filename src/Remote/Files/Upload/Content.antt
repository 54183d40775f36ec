-- ===== src/Remote/Files/Upload/Content.antt =====
-- What an upload leaves on the device.
use net_conductor.Base.{
  ℕ, zero, suc, ◌+◌, ◌-◌, ◌/◌, true, Option, none, some, List, [], ◌∷◌, ◌++◌, ltb, if◌then◌else◌,
  length, take, drop,
}
use net_conductor.Base.Text.{Text}
use net_conductor.Remote.Base64.{Bytes, decode}
use net_conductor.Remote.Protocol.{
  Reply, Request, terminal, stdin, resize, list, rename, delete, mkdir, create, write, read, input,
  frame,
}
use net_conductor.Remote.Link.Receive.{zeros}
use net_conductor.Remote.Files.Download.{replied, Turn}
use net_conductor.Remote.Files.Upload.{write_size}

-- `WriteAt` on the content of a file: a gap before the offset is filled with zeros.
unfoldable pub write_at : Bytes → Bytes → ℕ → Bytes
write_at content b offset =
    take offset (content ++ zeros (offset - length content))
    ++ (b ++ drop (offset + length b) content)

-- The operations "create" and "write" of internal/remote/session.go on the file at one path that
-- was not there before; `none` is no file. A write whose text is no base64, or of more than 24000
-- bytes, is refused.
unfoldable pub serve : Request → Option Bytes → Option Bytes
serve (create p) none = some []
serve (create p) (some content) = some content
serve (write p offset d) none = none
serve (write p offset d) (some content) = elim (decode d) [
  | none ↦ some content
  | some b ↦ if ltb write_size (length b) then some content else some (write_at content b offset)
]
serve terminal s = s
serve (stdin d) s = s
serve (resize c r) s = s
serve (list p) s = s
serve (rename p q) s = s
serve (delete p) s = s
serve (mkdir p) s = s
serve (read p o) s = s
serve (input i) s = s
serve frame s = s

abbrev pub serve_all : List Request → Option Bytes → Option Bytes
serve_all [] s = s
serve_all (r ∷ rs) s = serve_all rs (serve r s)

-- Answers without errors, the dialog staying open.
abbrev pub accepted : ℕ → Reply → List Turn
accepted zero r = []
accepted (suc n) r = record { answer = replied r; active = true } ∷ accepted n r

-- The number of write calls for a file.
abbrev pub writes_for : ℕ → ℕ
writes_for size = (size + write_size - 1) / write_size
