-- ===== src/Remote/Files/Upload.antt =====
-- The upload of web/static/remote-ui.js: the check of the size, the creation of the file and the
-- loop of write calls, over the answers of the device and the state of the dialog after each.
pub mod Content
use net_conductor.Base.{
  ℕ, ◌+◌, ◌*◌, Bool, true, false, List, [], ◌∷◌, ltb, if◌then◌else◌, length, take, drop,
}
use net_conductor.Base.Text.{Text, codes}
use net_conductor.Remote.Base64.{Bytes, encode}
use net_conductor.Remote.Protocol.{Request, create, write}
use net_conductor.Remote.Files.Download.{max_file, over_single, Answer, replied, failed, Turn}

abbrev pub write_size : ℕ
write_size = 24000

-- What became of the transfer: every piece was written and the dialog is open, so that the
-- directory is read again; the dialog was left; an exception goes to `report`; or a call has no
-- answer yet.
pub data End : Type 0 where
  written : End
  left : End
  thrown : Text → End
  awaiting : End

-- `f.slice(offset, offset + 24000)`
abbrev pub slice : Bytes → ℕ → Bytes
slice f offset = take write_size (drop offset f)

abbrev pub write_of : Text → Bytes → ℕ → Request
write_of path f offset = write path offset (encode (slice f offset))

-- `for (let offset = 0; offset < f.size && active; offset += 24000)` and what follows, with the
-- requests in the order in which they go out.
unfoldable pub upload_loop : Text → Bytes → List Turn → Bool → ℕ → List Request × End
upload_loop path f ts false offset = ([], left)
upload_loop path f [] true offset =
    if ltb offset (length f) then (write_of path f offset ∷ [], awaiting) else ([], written)
upload_loop path f (t ∷ ts) true offset =
    let rest = upload_loop path f ts t.active (offset + write_size) in
    if ltb offset (length f)
    then elim t.answer [
      | failed e ↦ (write_of path f offset ∷ [], thrown e)
      | replied r ↦ (write_of path f offset ∷ rest.0, rest.1)
    ]
    else ([], written)

-- `link.call("create", …)` and the loop after it
unfoldable pub upload_created : Text → Bytes → List Turn → List Request × End
upload_created path f [] = (create path ∷ [], awaiting)
upload_created path f (t ∷ ts) = elim t.answer [
  | failed e ↦ (create path ∷ [], thrown e)
  | replied r ↦
      (create path ∷ (upload_loop path f ts t.active 0).0, (upload_loop path f ts t.active 0).1)
]

-- The handler for a chosen file, at the joined path of its name.
unfoldable pub upload : Text → Bytes → List Turn → List Request × End
unfolding upload_created
upload path f ts =
    if ltb max_file (length f) then ([], thrown over_single) else upload_created path f ts
