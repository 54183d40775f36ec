-- ===== src/Console/Pages/Client.antt =====
-- The pages of the desktop client in web/static/app.js, `renderAgent`.
use net_conductor.Base.{Bool, Option, none, some, List, [], ◌∷◌, ◌++◌, if◌then◌else◌}
use net_conductor.Base.Text.{Text, codes, text_eq}
use net_conductor.Base.Decimal.{decimal}
use net_conductor.Console.Template.{
  Template, raw, escaped, choice, nested, each, end, ◌⨾◌, lit, literal, rows,
}
use net_conductor.Console.State.{Share, Client, is_blank, or_else}
use net_conductor.Console.Format.{Host, date, bytes}
use net_conductor.Console.Parts.{ico, panel, events, checks}
use net_conductor.Console.Pages.Server.{Tab, home, devices, proxy, maps, logs, repair}

abbrev is_connected : Client → Bool
is_connected s = text_eq s.status (codes "connected")

-- `.join(", ")` of the shared ports
abbrev share_list : List Share → Text
share_list [] = []
share_list (p ∷ []) = decimal p.listen_port ++ codes " → 127.0.0.1:" ++ decimal p.local_port
share_list (p ∷ q ∷ ps) =
    (decimal p.listen_port ++ codes " → 127.0.0.1:" ++ decimal p.local_port)
    ++ codes ", "
    ++ share_list (q ∷ ps)

-- The labels and the values of the page's table.
unfoldable pub details : Host → Client → List (Text × Text)
unfolding date bytes
details host s =
    (codes "虚拟 IP", or_else s.ip (codes "尚未分配"))
    ∷ (codes "服务器", or_else s.server (codes "尚未配置"))
    ∷ (codes "隧道接口", s.interface)
    ∷ (codes "本地 HTTP 代理", s.proxy_listen)
    ∷ (codes "心跳往返延迟", if is_connected s then decimal s.latency_ms ++ codes " ms" else codes "—")
    ∷ (codes "最近同步", date host s.last_sync)
    ∷ (codes "隧道接收 / 发送", bytes s.rx ++ codes " / " ++ bytes s.tx)
    ∷ (codes "最近成功出口", or_else s.exit_name (codes "暂无"))
    ∷ (codes "共享代理端口", or_else (share_list s.shares) (codes "未配置"))
    ∷ []

unfoldable pub detail_row : Text × Text → Template
detail_row (k, v) =
    lit "<div><label>"
    ⨾ raw k
    ⨾ lit "</label><strong class=\"mono\">"
    ⨾ escaped v
    ⨾ lit "</strong></div>"
    ⨾ end

unfoldable pub client_home : Host → Client → Template
unfolding ico details detail_row panel checks
client_home host s =
    choice s.enrolled end
      (lit "<div class=\"notice\">" ⨾ lit "尚未加入网络。填写服务器地址、入网码和服务器证书即可开始。</div>" ⨾ end)
    ⨾ choice (is_blank s.last_error) end
        (lit "<div class=\"notice error\">" ⨾ escaped s.last_error ⨾ lit "</div>" ⨾ end)
    ⨾ lit "<section class=\"panel\"><div class=\"status-banner\"><div><h2>"
    ⨾ choice s.tunnel_ready (literal "私网已连接")
        (choice (is_connected s) (literal "私网待恢复") (literal "等待连接") ⨾ end)
    ⨾ lit "</h2><p>"
    ⨾ escaped (or_else s.name (codes "Windows 设备"))
    ⨾ lit " · "
    ⨾ choice s.enrolled (literal "后台服务会自动重试连接") (literal "完成入网后自动连接")
    ⨾ lit "</p></div>"
    ⨾ nested (ico (codes "shield"))
    ⨾ lit "</div><div class=\"panel-body detail-grid\">"
    ⨾ each (rows detail_row (details host s))
    ⨾ lit "</div><div class=\"panel-head\"><span class=\"muted\">"
    ⨾ lit "窗口关闭后，后台服务继续运行</span><div class=\"toolbar\">"
    ⨾ choice s.enrolled
        (lit "<button data-action=\"system-proxy\">系统代理</button>"
          ⨾ lit "<button data-action=\"share\">共享本机代理</button>"
          ⨾ lit "<button class=\"primary\" data-action=\"diagnose\">"
          ⨾ lit "检查连接</button>"
          ⨾ end)
        (lit "<button class=\"primary\" data-action=\"join\">加入网络</button>" ⨾ end)
    ⨾ lit "</div></div></section>"
    ⨾ nested (panel "连接检查" (checks s.checks) end [])
    ⨾ end

abbrev pub repair_buttons : Template
repair_buttons =
    lit "<div class=\"toolbar\"><button data-action=\"diagnose\">"
    ⨾ lit "重新检测</button><button class=\"primary\" data-action=\"repair\">"
    ⨾ lit "一键修复</button></div>"
    ⨾ end

unfoldable pub repair_page : Host → Client → Template
unfolding panel checks events
repair_page host s =
    lit "<div class=\"notice\">"
    ⨾ lit "诊断检查真实端口和隧道状态。一键修复会先备份本客户端配置，再重启当"
    ⨾ lit "前 WireGuard 隧道，连接会短暂中断。</div>"
    ⨾ nested (panel "网络诊断" (checks s.checks) repair_buttons [])
    ⨾ nested (panel "修复与连接记录" (events host 5 s.events) end [])
    ⨾ end

-- What `renderAgent` puts into `#content`; the other tabs are the server's.
unfoldable pub client_content : Host → Tab → Client → Option Template
unfolding client_home repair_page panel events
client_content host home s = some (client_home host s)
client_content host repair s = some (repair_page host s)
client_content host logs s = some (panel "客户端事件" (events host 100 s.events) end [])
client_content host devices s = none
client_content host proxy s = none
client_content host maps s = none

-- The line `#live` in the client.
unfoldable pub client_live : Client → Template
client_live s =
    lit "<i class=\"dot\"></i>"
    ⨾ choice (is_connected s) (literal "服务器已连接") (literal "服务器未连接")
    ⨾ end
