-- ===== src/Console/Pages/Tables.antt =====
-- The tables of web/static/app.js: devices, the exits of each device, and the port mappings.
use net_conductor.Base.{
  ◌==◌, Bool, false, ◌&&◌, not, Option, none, some, List, [], if◌then◌else◌, ltb, is_nil,
}
use net_conductor.Base.Text.{Text, codes, text_eq}
use net_conductor.Console.Template.{
  Template, escaped, bare, number, choice, nested, each, end, ◌⨾◌, lit, literal, rows, joined,
}
use net_conductor.Console.State.{
  Device, Policy, Mapping, is_blank, or_else, device, device_name, find_policy, ip_of,
}
use net_conductor.Console.Format.{Host, date, bytes}
use net_conductor.Console.Parts.{badge}
use net_conductor.Console.Version.{can_remote}

abbrev pub is_online : Device → Bool
is_online d = text_eq d.status (codes "online")

abbrev is_shared : Device → Bool
is_shared d = ltb 0 d.proxy_port

abbrev upgrade : Template
upgrade = lit "disabled title=\"请升级客户端到 v0.2.0\"" ⨾ end

-- The cells that the compact table leaves out.
unfoldable pub detail_cells : Host → Device → Template
unfolding bytes date badge
detail_cells host d =
    lit "<td>"
    ⨾ choice (text_eq d.id (codes "cloud")) (literal "—")
        (choice (is_online d) (number d.latency_ms ⨾ lit " ms" ⨾ end) (literal "—") ⨾ end)
    ⨾ lit "<small>"
    ⨾ choice (is_blank d.agent_version) (literal "无客户端心跳") (lit "v" ⨾ escaped d.agent_version ⨾ end)
    ⨾ lit "</small></td><td class=\"mono\">"
    ⨾ bare (bytes d.tx)
    ⨾ lit " / "
    ⨾ bare (bytes d.rx)
    ⨾ lit "<small>"
    ⨾ choice (d.handshake == 0) (literal "暂无握手")
        (lit "握手 " ⨾ bare (date host (host.iso_date d.handshake)) ⨾ end)
    ⨾ lit "</small></td><td>"
    ⨾ choice (is_shared d)
        (nested (badge d.proxy_healthy (codes (if d.proxy_healthy then "可用" else "不可用"))) ⨾ end)
        (literal "未配置")
    ⨾ lit "<small>"
    ⨾ choice (is_shared d) (escaped d.proxy_type ⨾ lit ":" ⨾ number d.proxy_port ⨾ end) end
    ⨾ lit "</small></td>"
    ⨾ end

unfoldable pub device_row : Host → Bool → Device → Template
unfolding detail_cells badge can_remote
device_row host compact d =
    lit "<tr><td><strong>"
    ⨾ escaped d.name
    ⨾ lit "</strong><small class=\"mono\">"
    ⨾ escaped d.ip
    ⨾ lit " · "
    ⨾ escaped d.os
    ⨾ lit "</small></td><td>"
    ⨾ nested (badge (is_online d) [])
    ⨾ lit "</td>"
    ⨾ choice compact end (nested (detail_cells host d) ⨾ end)
    ⨾ lit "<td><div class=\"toolbar\"><button data-action=\"ssh\" data-id=\""
    ⨾ bare d.id
    ⨾ lit "\" "
    ⨾ choice (not (is_blank d.ssh_user) && not (is_blank d.ssh_fingerprint)) end
        (literal "disabled")
    ⨾ lit ">SSH</button><button data-action=\"files\" data-id=\""
    ⨾ bare d.id
    ⨾ lit "\" "
    ⨾ choice (can_remote (some d)) end upgrade
    ⨾ lit ">文件</button>"
    ⨾ choice (text_eq d.os (codes "windows"))
        (lit "<button data-action=\"desktop\" data-id=\""
          ⨾ bare d.id
          ⨾ lit "\" "
          ⨾ choice (can_remote (some d)) end upgrade
          ⨾ lit ">桌面</button>"
          ⨾ end)
        end
    ⨾ choice compact end
        (lit "<button data-action=\"device\" data-id=\"" ⨾ bare d.id ⨾ lit "\">设置</button>" ⨾ end)
    ⨾ lit "</div></td></tr>"
    ⨾ end

-- `deviceTable(compact)`
unfoldable pub device_table : Host → Bool → List Device → Template
unfolding device_row
device_table host compact ds =
    lit "<div class=\"table-wrap\"><table><thead><tr><th>设备</th><th>"
    ⨾ lit "状态</th>"
    ⨾ choice compact end (lit "<th>往返延迟</th><th>隧道流量 ↓ / ↑</th><th>代理出口</th>" ⨾ end)
    ⨾ lit "<th>操作</th></tr></thead><tbody>"
    ⨾ each (rows (device_row host compact) ds)
    ⨾ lit "</tbody></table></div>"
    ⨾ end

unfoldable pub exit_tag : List Device → Text → Template
unfolding device_name
exit_tag ds id = lit "<span class=\"tag\">" ⨾ escaped (device_name id ds) ⨾ lit "</span>" ⨾ end

abbrev pub separator : Template
separator = lit "<span class=\"arrow\">→</span>" ⨾ end

abbrev pub exits_of : Option Policy → List Text
exits_of none = []
exits_of (some p) = p.exits

-- `deviceName(p?.active)`; no device has the id `undefined`.
abbrev active_name : List Device → Option Policy → Text
active_name ds none = codes "暂无"
active_name ds (some p) = device_name p.active ds

abbrev fails_direct : Option Policy → Bool
fails_direct none = false
fails_direct (some p) = text_eq p.on_failure (codes "direct")

unfoldable pub policy_row : List Policy → List Device → Device → Template
unfolding find_policy device_name exit_tag
policy_row ps ds d =
    let p = find_policy d.id ps in
    lit "<tr><td><strong>"
    ⨾ escaped d.name
    ⨾ lit "</strong><small>"
    ⨾ escaped d.ip
    ⨾ lit "</small></td><td><div class=\"ordering\">"
    ⨾ choice (is_nil (exits_of p)) (lit "<span class=\"muted\">未配置</span>" ⨾ end)
        (each (joined separator (exit_tag ds) (exits_of p)) ⨾ end)
    ⨾ lit "</div></td><td>"
    ⨾ escaped (active_name ds p)
    ⨾ lit "</td><td>"
    ⨾ choice (fails_direct p) (literal "直接连接") (literal "停止代理")
    ⨾ lit "</td><td><button data-action=\"policy\" data-id=\""
    ⨾ bare d.id
    ⨾ lit "\">配置</button></td></tr>"
    ⨾ end

-- The panel of the page "proxy".
unfoldable pub policy_table : List Policy → List Device → Template
unfolding policy_row
policy_table ps ds =
    lit "<div class=\"table-wrap\"><table><thead><tr><th>来源设备</th><th>"
    ⨾ lit "出口优先级</th><th>最近成功出口</th><th>全部失败时</th><th></th>"
    ⨾ lit "</tr></thead><tbody>"
    ⨾ each (rows (policy_row ps ds) ds)
    ⨾ lit "</tbody></table></div>"
    ⨾ end

abbrev pub is_listening : Mapping → Bool
is_listening m = m.enabled && is_blank m.error

abbrev mapping_status : Mapping → Text
mapping_status m =
    codes (if not (is_blank m.error) then "启动失败" else if m.enabled then "监听中" else "未启用")

unfoldable pub mapping_row : Host → List Device → Mapping → Template
unfolding badge device_name device
mapping_row host ds m =
    lit "<tr><td><strong>"
    ⨾ escaped m.name
    ⨾ lit "</strong><small>"
    ⨾ bare (host.upper m.protocol)
    ⨾ lit "</small></td><td class=\"mono\">"
    ⨾ escaped (or_else m.domain (codes "*"))
    ⨾ lit ":"
    ⨾ number m.listen_port
    ⨾ lit "</td><td>"
    ⨾ escaped (device_name m.device ds)
    ⨾ lit "<small>"
    ⨾ escaped (ip_of (device m.device ds))
    ⨾ lit ":"
    ⨾ number m.target_port
    ⨾ lit "</small></td><td>"
    ⨾ nested (badge (is_listening m) (mapping_status m))
    ⨾ choice (is_blank m.error) end (lit "<small>" ⨾ escaped m.error ⨾ lit "</small>" ⨾ end)
    ⨾ lit "</td><td><button class=\"danger\" data-action=\"delete-map\" "
    ⨾ lit "data-id=\""
    ⨾ bare m.id
    ⨾ lit "\">删除</button></td></tr>"
    ⨾ end

unfoldable pub mapping_table : Host → List Device → List Mapping → Template
unfolding mapping_row
mapping_table host ds ms =
    lit "<div class=\"table-wrap\"><table><thead><tr><th>名称 / 协议</th>"
    ⨾ lit "<th>公网入口</th><th>目标设备</th><th>状态</th><th></th></tr>"
    ⨾ lit "</thead><tbody>"
    ⨾ each (rows (mapping_row host ds) ms)
    ⨾ lit "</tbody></table></div>"
    ⨾ end
