-- ===== src/Console/Dialogs/Frames.antt =====
-- What web/static/app.js writes into its one dialog element.
use net_conductor.Base.{Option, none, some, List}
use net_conductor.Base.Text.{Text}
use net_conductor.Console.Template.{Template, escaped, end, ◌⨾◌, lit}
use net_conductor.Console.State.{Device, Network, Client, device_name}
use net_conductor.Console.Parts.{modal}
use net_conductor.Console.Dialogs.{Dialog, Request, dialog, LocalRequest, local_dialog}

-- What the dialog shows once the server has made the code of an enrollment.
unfoldable pub code_dialog : Text → Template
code_dialog code =
    lit "<header><h2>入网码已生成</h2><button data-action=\"close-dialog\">"
    ⨾ lit "✕</button></header><div class=\"dialog-body\"><p class=\"help\">"
    ⨾ lit "复制到 Windows 客户端，10 分钟内有效。</p><textarea readonly>"
    ⨾ escaped code
    ⨾ lit "</textarea></div>"
    ⨾ end

-- The dialog of `openSSH`, around its terminal.
unfoldable pub terminal_dialog : Text → List Device → Template
unfolding device_name
terminal_dialog id ds =
    lit "<header><h2>SSH · "
    ⨾ escaped (device_name id ds)
    ⨾ lit "</h2><button data-action=\"close-dialog\">关闭终端</button>"
    ⨾ lit "</header><div id=\"terminal\"></div>"
    ⨾ end

-- On the server's pages and in the client, the dialogs of `modal`; after an enrollment, its code; and
-- the terminal of a device.
pub data Written : Type 0 where
  page_modal : Request → Network → Written
  client_modal : LocalRequest → Client → Written
  enrolled : Text → Written
  terminal : Text → Network → Written

abbrev pub framed : Option Dialog → Option Template
framed none = none
framed (some d) = some (modal d.title d.body)

-- `dlg.innerHTML`
unfoldable pub written : Written → Option Template
unfolding dialog local_dialog modal code_dialog terminal_dialog
written (page_modal r s) = framed (dialog r s)
written (client_modal r s) = framed (some (local_dialog r s))
written (enrolled code) = some (code_dialog code)
written (terminal id s) = some (terminal_dialog id s.devices)
