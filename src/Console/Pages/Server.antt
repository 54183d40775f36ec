-- ===== src/Console/Pages/Server.antt =====
-- The pages of the server's console in web/static/app.js: the frame, the content of each tab, and
-- the line for the live status.
use Prim.Native.String.{String}
use net_conductor.Base.{
  ℕ, suc, Bool, true, false, Option, none, some, List, [], ◌∷◌, if◌then◌else◌, length, is_nil,
}
use net_conductor.Base.Text.{codes, text_eq}
use net_conductor.Console.Template.{
  Template, escaped, bare, number, choice, nested, each, end, ◌⨾◌, lit, literal, rows,
}
use net_conductor.Console.State.{Device, Mapping, Network}
use net_conductor.Console.Format.{Host}
use net_conductor.Console.Parts.{ico, panel, stat, events}
use net_conductor.Console.Pages.Tables.{
  is_online, is_listening, device_table, policy_table, mapping_table,
}

pub data Tab : Type 0 where
  home : Tab
  devices : Tab
  proxy : Tab
  maps : Tab
  logs : Tab
  repair : Tab

-- The keys of the tabs.
abbrev pub tab_name : Tab → String
tab_name home = "home"
tab_name devices = "devices"
tab_name proxy = "proxy"
tab_name maps = "maps"
tab_name logs = "logs"
tab_name repair = "repair"

-- `names`
abbrev pub title : Bool → Tab → String
title agent home = if agent then "连接概览" else "网络概览"
title agent devices = "组网设备"
title agent proxy = "代理策略"
title agent maps = "端口映射"
title agent logs = "事件日志"
title agent repair = "诊断与修复"

abbrev pub tabs_of : Bool → List Tab
tabs_of agent =
    if agent then home ∷ repair ∷ logs ∷ [] else home ∷ devices ∷ proxy ∷ maps ∷ logs ∷ []

unfoldable pub nav_button : Bool → Tab → Tab → Template
unfolding ico
nav_button agent tab n =
    lit "<button data-tab=\""
    ⨾ nested (literal (tab_name n))
    ⨾ lit "\" class=\""
    ⨾ choice (text_eq (codes (tab_name tab)) (codes (tab_name n))) (literal "active") end
    ⨾ lit "\">"
    ⨾ nested (ico (codes (tab_name n)))
    ⨾ lit "<span>"
    ⨾ nested (literal (title agent n))
    ⨾ lit "</span></button>"
    ⨾ end

-- `shell()`
unfoldable pub shell : Bool → Tab → Template
unfolding nav_button
shell agent tab =
    lit "<div class=\"shell\"><aside class=\"side\"><div class=\"brand\">"
    ⨾ lit "<span class=\"logo\">N</span>Net Conductor</div><small>"
    ⨾ nested (literal (if agent then "WINDOWS CLIENT" else "NETWORK CONTROL"))
    ⨾ lit "</small><nav>"
    ⨾ each (rows (nav_button agent tab) (tabs_of agent))
    ⨾ lit "</nav><footer><strong>"
    ⨾ nested (literal (if agent then "Windows 节点客户端" else "自托管网络管理"))
    ⨾ lit "</strong><br>v0.2.0 · WireGuard 私网"
    ⨾ choice agent end (lit "<br><button data-action=\"logout\">退出登录</button>" ⨾ end)
    ⨾ lit "</footer></aside><main class=\"main\"><header class=\"top\"><div>"
    ⨾ lit "<h1 id=\"title\">"
    ⨾ nested (literal (title agent tab))
    ⨾ lit "</h1><p>"
    ⨾ nested (literal (if agent then "你的设备、连接与网络出口" else "一台公网服务器，连接你的所有设备"))
    ⨾ lit "</p></div><span class=\"live\" id=\"live\">正在连接…</span>"
    ⨾ lit "</header><div id=\"content\"></div></main></div>"
    ⨾ end

abbrev online_count : List Device → ℕ
online_count [] = 0
online_count (d ∷ ds) = if is_online d then suc (online_count ds) else online_count ds

abbrev healthy_count : List Device → ℕ
healthy_count [] = 0
healthy_count (d ∷ ds) = if d.proxy_healthy then suc (healthy_count ds) else healthy_count ds

abbrev listening_count : List Mapping → ℕ
listening_count [] = 0
listening_count (m ∷ ms) = if is_listening m then suc (listening_count ms) else listening_count ms

-- `state.devices.filter((d) => d.id !== "cloud")`
abbrev pub peers_of : List Device → List Device
peers_of [] = []
peers_of (d ∷ ds) = if text_eq d.id (codes "cloud") then peers_of ds else d ∷ peers_of ds

unfoldable pub peer_node : Device → Template
unfolding ico
peer_node d =
    lit "<div class=\"node\">"
    ⨾ nested (ico (codes "devices"))
    ⨾ lit "<div><strong>"
    ⨾ escaped d.name
    ⨾ lit "</strong><small>"
    ⨾ escaped d.ip
    ⨾ lit " · "
    ⨾ choice (is_online d) (literal "在线") (literal "离线")
    ⨾ lit "</small></div></div>"
    ⨾ end

abbrev pub enroll_button : Template
enroll_button =
    lit "<button class=\"primary\" data-action=\"enroll\">" ⨾ lit "＋ 添加设备</button>" ⨾ end

unfoldable pub topology : Network → Template
unfolding peer_node ico
topology s =
    lit "<div class=\"topology\"><div class=\"node\">"
    ⨾ nested (ico (codes "cloud"))
    ⨾ lit "<div><strong>公网服务器</strong><small>"
    ⨾ escaped s.server_ip
    ⨾ lit " · 中心节点</small></div></div><div class=\"stem\"></div>"
    ⨾ lit "<div class=\"peers\">"
    ⨾ choice (is_nil (peers_of s.devices)) (lit "<span class=\"muted\">添加第一台设备，开始组网</span>" ⨾ end)
        (each (rows peer_node (peers_of s.devices)) ⨾ end)
    ⨾ lit "</div></div>"
    ⨾ end

-- The page "home" around its three panels.
unfoldable pub home_around : Network → Template → Template → Template → Template
unfolding stat
home_around s private_network connections recent =
    lit "<div class=\"stats\">"
    ⨾ nested (
        stat "在线设备"
          (number (online_count s.devices)
            ⨾ lit "<span> / "
            ⨾ number (length s.devices)
            ⨾ lit "</span>"
            ⨾ end)
          "包括公网服务器" (codes "devices"))
    ⨾ nested (stat "可用代理出口" (number (healthy_count s.devices) ⨾ end) "真实出口请求检测" (codes "proxy"))
    ⨾ nested (stat "端口映射" (number (listening_count s.mappings) ⨾ end) "正在监听的转发规则" (codes "maps"))
    ⨾ nested (stat "代理策略" (number (length s.policies) ⨾ end) "按来源设备独立配置" (codes "shield"))
    ⨾ lit "</div>"
    ⨾ nested private_network
    ⨾ lit "<div class=\"split\">"
    ⨾ nested connections
    ⨾ nested recent
    ⨾ lit "</div>"
    ⨾ end

unfoldable pub home_page : Host → Network → Template
unfolding home_around panel topology device_table events
home_page host s =
    home_around s (panel "私网拓扑" (topology s) enroll_button [])
      (panel "设备连接" (device_table host true s.devices) end [])
      (panel "最近事件" (events host 5 s.events) end [])

unfoldable pub devices_page : Host → Network → Template
unfolding panel device_table
devices_page host s =
    panel "全部设备" (device_table host false s.devices) enroll_button
      (codes "在线状态来自客户端心跳；隧道流量来自服务器 WireGuard")

unfoldable pub proxy_page : Network → Template
unfolding panel policy_table
proxy_page s =
    lit "<div class=\"notice\">"
    ⨾ lit "按顺序尝试出口，新连接在故障时切换。客户端应用使用本地 HTTP 代理 "
    ⨾ lit "127.0.0.1:17891；未配置策略时阻止代理出站。</div>"
    ⨾ nested (panel "设备出口策略" (policy_table s.policies s.devices) end [])
    ⨾ end

unfoldable pub maps_page : Host → Network → Template
unfolding panel mapping_table
maps_page host s =
    lit "<div class=\"notice\">"
    ⨾ lit "映射由公网服务器转发至设备私网端口。公网访问还需云安全组放行对应端"
    ⨾ lit "口；HTTP 域名需解析到服务器。</div>"
    ⨾ nested (
        panel "公网端口映射"
          (choice (is_nil s.mappings)
              (lit "<div class=\"empty\">" ⨾ lit "尚无映射。添加设备端口，让服务从公网可访问。</div>" ⨾ end)
              (nested (mapping_table host s.devices s.mappings) ⨾ end)
            ⨾ end)
          (lit "<button class=\"primary\" data-action=\"mapping\">" ⨾ lit "＋ 添加映射</button>" ⨾ end)
          [])
    ⨾ end

-- What `render` puts into `#content` on the server; the tab "repair" is the client's only.
unfoldable pub content : Host → Tab → Network → Option Template
unfolding home_page devices_page proxy_page maps_page panel events
content host home s = some (home_page host s)
content host devices s = some (devices_page host s)
content host proxy s = some (proxy_page s)
content host maps s = some (maps_page host s)
content host logs s = some (panel "操作与连接事件" (events host 100 s.events) end [])
content host repair s = none

-- The line `#live` on the server.
unfoldable pub live : Host → Template
live host = lit "<i class=\"dot\"></i>" ⨾ lit "实时同步 · " ⨾ bare host.clock ⨾ end
