-- ===== src/Console/Dialogs.antt =====
-- The dialogs of `action` in web/static/app.js.
pub mod Frames
pub mod Inert
pub mod Requests
pub mod Submit
use net_conductor.Base.{
  ℕ, zero, suc, ◌+◌, ◌==◌, Bool, true, false, Option, none, some, List, [], ◌∷◌, max, ltb,
  if◌then◌else◌, length,
}
use net_conductor.Base.Text.{Text, codes, text_eq}
use net_conductor.Base.Decimal.{decimal}
use net_conductor.Console.Template.{
  Template, Rows, escaped, number, nested, each, end, ◌⨾◌, no_rows, row, lit, literal, rows,
}
use net_conductor.Console.State.{
  Device, Policy, Mapping, Network, Client, device, device_name, find_policy, or_else,
}
use net_conductor.Console.Parts.{field, select}
use net_conductor.Console.Policy.{or_default, exit_at, failure_choices, exit_choices}

pub record Dialog : Type 0 where
  pub title : Template
  pub body : Template

unfoldable pub enroll_dialog : Dialog
unfolding field
enroll_dialog = record {
  title = literal "添加 Windows 设备";
  body =
      nested (field "接入现有设备时填写虚拟 IP；新设备留空" "ip" [] "text" "")
      ⨾ lit "<p class=\"help\">"
      ⨾ lit "入网码单次有效，10 分钟过期。请在客户端填写服务器 HTTPS "
      ⨾ lit "地址，并导入服务器证书。</p>"
      ⨾ end;
}

abbrev pub proxy_types : List (Text × Text)
proxy_types = (codes "socks5", codes "SOCKS5") ∷ (codes "http", codes "HTTP") ∷ []

unfoldable pub device_dialog : Device → Dialog
unfolding field select
device_dialog d = record {
  title = literal "设备设置";
  body =
      nested (field "设备名称" "name" d.name "text" "required maxlength=\"80\"")
      ⨾ lit "<div class=\"field-row\">"
      ⨾ nested (
          select (literal "共享代理协议") (literal "proxyType") proxy_types
            (or_else d.proxy_type (codes "socks5")))
      ⨾ nested (
          field "共享代理端口，0 表示关闭" "proxyPort" (decimal d.proxy_port) "number"
            "min=\"0\" max=\"65535\" required")
      ⨾ lit "</div><div class=\"field-row\">"
      ⨾ nested (field "SSH 用户" "sshUser" d.ssh_user "text" "")
      ⨾ nested (
          field "SSH 端口" "sshPort" (decimal (if d.ssh_port == 0 then 22 else d.ssh_port)) "number"
            "min=\"1\" max=\"65535\" required")
      ⨾ lit "</div>"
      ⨾ nested (field "SSH 主机指纹（在目标机核对）" "sshFingerprint" d.ssh_fingerprint "text" "")
      ⨾ lit "<p class=\"help\">"
      ⨾ lit "SSH 使用服务器上配置的专用密钥。主机指纹不匹配时拒绝连接。</p>"
      ⨾ end;
}

abbrev pub exit_label : ℕ → Template
exit_label i = lit "优先级 " ⨾ number (i + 1) ⨾ end

abbrev pub exit_key : ℕ → Template
exit_key i = lit "exit" ⨾ number i ⨾ end

-- The selects `i`, `i + 1`, … for the exits.
unfoldable pub exit_selects : ℕ → ℕ → List Text → List (Text × Text) → Rows
unfolding select
exit_selects zero i es os = no_rows
exit_selects (suc n) i es os =
    row (select (exit_label i) (exit_key i) os (exit_at i es)) (exit_selects n (suc i) es os)

unfoldable pub policy_dialog : Text → List Policy → List Device → Dialog
unfolding device_name find_policy exit_selects exit_choices select
policy_dialog id ps ds =
    let p = or_default id (find_policy id ps) in
    record {
      title = lit "配置 " ⨾ escaped (device_name id ds) ⨾ lit " 的出口" ⨾ end;
      body =
          each (exit_selects (max 3 (length p.exits + 1)) 0 p.exits (exit_choices ds))
          ⨾ nested (select (literal "所有出口失败时") (literal "onFailure") failure_choices p.on_failure)
          ⨾ end;
    }

abbrev pub protocols : List (Text × Text)
protocols =
    (codes "tcp", codes "TCP") ∷ (codes "udp", codes "UDP") ∷ (codes "http", codes "HTTP") ∷ []

-- `state.devices.map((d) => [d.id, d.name])`
abbrev pub targets : List Device → List (Text × Text)
targets [] = []
targets (d ∷ ds) = (d.id, d.name) ∷ targets ds

unfoldable pub mapping_dialog : List Device → Dialog
unfolding field select
mapping_dialog ds = record {
  title = literal "添加端口映射";
  body =
      nested (field "映射名称" "name" [] "text" "required maxlength=\"80\"")
      ⨾ lit "<div class=\"field-row\">"
      ⨾ nested (select (literal "协议") (literal "protocol") protocols (codes "tcp"))
      ⨾ nested (field "公网监听端口" "listenPort" [] "number" "required min=\"1024\" max=\"65535\"")
      ⨾ lit "</div>"
      ⨾ nested (select (literal "目标设备") (literal "device") (targets ds) [])
      ⨾ nested (field "目标服务端口" "targetPort" [] "number" "required min=\"1\" max=\"65535\"")
      ⨾ nested (field "HTTP 域名（可选）" "domain" [] "text" "")
      ⨾ lit "<p class=\"help\">"
      ⨾ lit "HTTPS 可由现有 Caddy 转到此 HTTP 映射端口；本版本不自动修改已有 "
      ⨾ lit "Caddy 配置。</p>"
      ⨾ end;
}

unfoldable pub delete_dialog : Mapping → Dialog
delete_dialog m = record {
  title = literal "删除映射";
  body = lit "<p>停止并删除 " ⨾ escaped m.name ⨾ lit " 的公网转发。</p>" ⨾ end;
}

abbrev pub adoptions : List (Text × Text)
adoptions = (codes "false", codes "创建新隧道") ∷ (codes "true", codes "接入已有隧道") ∷ []

unfoldable pub join_dialog : Client → Dialog
unfolding field select
join_dialog s = record {
  title = literal "加入私网";
  body =
      nested (field "服务器 HTTPS 地址" "server" [] "url" "required placeholder=\"https://服务器:18443\"")
      ⨾ nested (field "设备名称" "name" s.name "text" "required")
      ⨾ nested (field "入网码" "code" [] "password" "required")
      ⨾ lit "<label class=\"field\">"
      ⨾ lit "服务器证书 PEM（使用受信任证书时可留空）<textarea "
      ⨾ lit "name=\"certificate\" placeholder=\"-----BEGIN CERTIFICATE-----\">"
      ⨾ lit "</textarea></label>"
      ⨾ nested (
          field "WireGuard 隧道名称" "interface" s.interface "text"
            "required pattern=\"[A-Za-z0-9_-]+\"")
      ⨾ nested (select (literal "组网方式") (literal "adopt") adoptions (codes "false"))
      ⨾ end;
}

unfoldable pub share_dialog : Dialog
unfolding field
share_dialog = record {
  title = literal "共享本机代理";
  body =
      nested (
        field "本机 HTTP / SOCKS5 代理端口" "port" (codes "33211") "number"
          "required min=\"1\" max=\"65535\"")
      ⨾ nested (
          field "私网共享端口" "listenPort" (codes "34211") "number"
            "required min=\"1024\" max=\"65535\"")
      ⨾ lit "<p class=\"help\">"
      ⨾ lit "仅允许公网服务器访问。完成后在网页设备设置中填写对应协议和私网共享"
      ⨾ lit "端口。</p>"
      ⨾ end;
}

abbrev pub proxy_actions : List (Text × Text)
proxy_actions =
    (codes "enable", codes "启用 Net Conductor 代理") ∷ (codes "restore", codes "恢复启用前的代理设置") ∷ []

-- `enabled` is the answer of the desktop client for "status".
unfoldable pub system_proxy_dialog : Bool → Dialog
unfolding select
system_proxy_dialog enabled = record {
  title = literal "当前用户的系统代理";
  body =
      nested (
        select (literal "操作") (literal "action") proxy_actions
          (codes (if enabled then "restore" else "enable")))
      ⨾ lit "<p class=help>仅影响遵循 Windows "
      ⨾ lit "系统代理的应用。启用前保存原配置，恢复时还原原值。</p>"
      ⨾ end;
}

-- The dialogs of the server's pages, with the id of their button.
pub data Request : Type 0 where
  enroll : Request
  settings : Text → Request
  policy : Text → Request
  mapping : Request
  delete_map : Text → Request

abbrev pub device_dialog_of : Option Device → Option Dialog
device_dialog_of none = none
device_dialog_of (some d) = some (device_dialog d)

-- `state.mappings.find((x) => x.id === id)`
abbrev pub find_mapping : Text → List Mapping → Option Mapping
find_mapping id [] = none
find_mapping id (m ∷ ms) = if text_eq m.id id then some m else find_mapping id ms

abbrev pub delete_dialog_of : Option Mapping → Option Dialog
delete_dialog_of none = none
delete_dialog_of (some m) = some (delete_dialog m)

-- The dialog that a button opens; where its device or mapping is gone, `action` throws before it
-- opens one.
unfoldable pub dialog : Request → Network → Option Dialog
unfolding enroll_dialog device_dialog policy_dialog mapping_dialog delete_dialog device
dialog enroll s = some enroll_dialog
dialog (settings id) s = device_dialog_of (device id s.devices)
dialog (policy id) s = some (policy_dialog id s.policies s.devices)
dialog mapping s = some (mapping_dialog s.devices)
dialog (delete_map id) s = delete_dialog_of (find_mapping id s.mappings)

-- The dialogs of the desktop client.
pub data LocalRequest : Type 0 where
  join : LocalRequest
  share : LocalRequest
  system_proxy : Bool → LocalRequest

unfoldable pub local_dialog : LocalRequest → Client → Dialog
unfolding join_dialog share_dialog system_proxy_dialog
local_dialog join s = join_dialog s
local_dialog share s = share_dialog
local_dialog (system_proxy enabled) s = system_proxy_dialog enabled
