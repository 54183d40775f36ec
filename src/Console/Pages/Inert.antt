-- ===== src/Console/Pages/Inert.antt =====
-- Whole pages, whatever the names, the details and the errors in the state are.
use Prim.Native.String.{String}
use mathlib.Core.Path.{subst}
use net_conductor.Base.{◌≡◌, refl, true, false, some, [], All, all_of}
use net_conductor.Base.Text.{codes}
use net_conductor.Console.Template.{Template, end}
use net_conductor.Console.Template.Tags.{in_text, is_plain, mode_after}
use net_conductor.Console.Template.Flow.{flow, is_clean}
use net_conductor.Console.Template.Safe.{IsSafe, rows-IsSafeRows, IsInert, safe-IsInert}
use net_conductor.Console.State.{Device, Network, Client}
use net_conductor.Console.Format.{Host}
use net_conductor.Console.Format.Plain.{IsPlainHost}
use net_conductor.Console.Parts.{ico, stat, panel, events, checks}
use net_conductor.Console.Pages.Tables.{device_table, policy_table}
use net_conductor.Console.Pages.Server.{
  Tab, home, devices, proxy, maps, logs, repair, peer_node, peers_of, enroll_button, topology,
  home_page, home_around, devices_page, proxy_page, maps_page, content,
}
use net_conductor.Console.Pages.Client.{
  client_content, client_home, repair_page, repair_buttons, details, detail_row,
}
use net_conductor.Console.Pages.Server.{live}
use net_conductor.Console.Pages.Client.{client_live}
use net_conductor.Console.Pages.Render.{Shown, of_network, of_client, render, render_live}
use net_conductor.Console.Pages.Safe.{
  IsPlainMapping, device_table-IsSafe, policy_table-IsSafe, mapping_table-IsSafe, events-IsSafe,
  checks-IsSafe, panel-IsSafe,
}

-- The ids of a network's devices, and the ids and protocols of its mappings, are plain.
pub record IsPlainNetwork (s : Network) : Type 0 where
  pub devices_plain : All (λ d. is_plain d.id ≡ true) s.devices
  pub mappings_plain : All IsPlainMapping s.mappings

peer_node-IsSafe : (d : Device) → IsSafe (peer_node d)
unfolding peer_node flow is_clean ico
peer_node-IsSafe d = (refl, refl)

topology-IsSafe : (s : Network) → IsSafe (topology s)
unfolding topology flow is_clean ico
topology-IsSafe s =
    let (f, c) =
      rows-IsSafeRows peer_node (peers_of s.devices)
        (all_of peer_node-IsSafe (peers_of s.devices)) in
    (rw f refl, rw c refl)

enroll-IsSafe : IsSafe enroll_button
unfolding flow is_clean
enroll-IsSafe = (refl, refl)

end-IsSafe : IsSafe end
unfolding flow is_clean
end-IsSafe = (refl, refl)

-- A panel with a title of the page's and nothing else of it.
plain_panel-IsSafe :
    (t : String) (body : Template)
    → mode_after in_text (codes t) ≡ in_text
    → IsSafe body
    → IsSafe (panel t body end [])
unfolding mode_after
plain_panel-IsSafe t body k b = panel-IsSafe t body end [] k b end-IsSafe refl

around-IsSafe :
    (s : Network) (t u v : Template) → IsSafe t → IsSafe u → IsSafe v → IsSafe (home_around s t u v)
unfolding home_around flow is_clean stat ico
around-IsSafe s t u v (f1, c1) (f2, c2) (f3, c3) = (rw (f1, f2, f3) refl, rw (c1, c2, c3) refl)

home-IsSafe :
    (host : Host) (s : Network) → IsPlainHost host → IsPlainNetwork s → IsSafe (home_page host s)
unfolding home_page mode_after
home-IsSafe host s h p =
    around-IsSafe s _ _ _
      (panel-IsSafe "私网拓扑" (topology s) enroll_button [] refl (topology-IsSafe s) enroll-IsSafe
        refl)
      (plain_panel-IsSafe "设备连接" (device_table host true s.devices) refl
        (device_table-IsSafe host true s.devices h p.devices_plain))
      (plain_panel-IsSafe "最近事件" (events host 5 s.events) refl (events-IsSafe host 5 s.events h))

devices-IsSafe :
    (host : Host) (s : Network) → IsPlainHost host → IsPlainNetwork s → IsSafe (devices_page host s)
unfolding devices_page mode_after
devices-IsSafe host s h p =
    panel-IsSafe "全部设备" (device_table host false s.devices) enroll_button
      (codes "在线状态来自客户端心跳；隧道流量来自服务器 WireGuard") refl
      (device_table-IsSafe host false s.devices h p.devices_plain) enroll-IsSafe refl

proxy-IsSafe : (s : Network) → IsPlainNetwork s → IsSafe (proxy_page s)
unfolding proxy_page flow is_clean
proxy-IsSafe s p =
    let (f, c) =
      plain_panel-IsSafe "设备出口策略" (policy_table s.policies s.devices) refl
        (policy_table-IsSafe s.policies s.devices p.devices_plain) in
    (rw f refl, rw c refl)

maps-IsSafe :
    (host : Host) (s : Network) → IsPlainHost host → IsPlainNetwork s → IsSafe (maps_page host s)
unfolding maps_page flow is_clean panel
maps-IsSafe host s h p =
    let (f, c) = mapping_table-IsSafe host s.devices s.mappings h p.mappings_plain in
    (rw f refl, rw c refl)

of_some : {t u : Template} → some t ≡ some u → t ≡ u
of_some e = cc

content-IsSafe :
    (host : Host) (tab : Tab) (s : Network) (t : Template)
    → IsPlainHost host
    → IsPlainNetwork s
    → content host tab s ≡ some t
    → IsSafe t
unfolding content mode_after
content-IsSafe host home s t h p e = subst IsSafe (of_some e) (home-IsSafe host s h p)
content-IsSafe host devices s t h p e = subst IsSafe (of_some e) (devices-IsSafe host s h p)
content-IsSafe host proxy s t h p e = subst IsSafe (of_some e) (proxy-IsSafe s p)
content-IsSafe host maps s t h p e = subst IsSafe (of_some e) (maps-IsSafe host s h p)
content-IsSafe host logs s t h p e = subst IsSafe (of_some e) (
    plain_panel-IsSafe "操作与连接事件" (events host 100 s.events) refl
      (events-IsSafe host 100 s.events h))
content-IsSafe host repair s t h p e = cc

client_home-IsSafe : (host : Host) (s : Client) → IsSafe (client_home host s)
unfolding client_home flow is_clean ico details detail_row
client_home-IsSafe host s =
    let (f, c) = plain_panel-IsSafe "连接检查" (checks s.checks) refl (checks-IsSafe s.checks) in
    (rw f refl, rw c refl)

repair-IsSafe : (host : Host) (s : Client) → IsPlainHost host → IsSafe (repair_page host s)
unfolding repair_page flow is_clean mode_after
repair-IsSafe host s h =
    let (f1, c1) =
      panel-IsSafe "网络诊断" (checks s.checks) repair_buttons [] refl (checks-IsSafe s.checks)
        (refl, refl) refl in
    let (f2, c2) =
      plain_panel-IsSafe "修复与连接记录" (events host 5 s.events) refl
        (events-IsSafe host 5 s.events h) in
    (rw (f1, f2) refl, rw (c1, c2) refl)

client_content-IsSafe :
    (host : Host) (tab : Tab) (s : Client) (t : Template)
    → IsPlainHost host
    → client_content host tab s ≡ some t
    → IsSafe t
unfolding client_content mode_after
client_content-IsSafe host home s t h e = subst IsSafe (of_some e) (client_home-IsSafe host s)
client_content-IsSafe host repair s t h e = subst IsSafe (of_some e) (repair-IsSafe host s h)
client_content-IsSafe host logs s t h e =
    subst IsSafe (of_some e) (
      plain_panel-IsSafe "客户端事件" (events host 100 s.events) refl
        (events-IsSafe host 100 s.events h))
client_content-IsSafe host devices s t h e = cc
client_content-IsSafe host proxy s t h e = cc
client_content-IsSafe host maps s t h e = cc

-- What a state must hold: on the server's pages, plain ids and protocols; nothing in the client.
abbrev pub IsPlainState : Shown → Type 0
IsPlainState (of_network s) = IsPlainNetwork s
IsPlainState (of_client s) = Unit

render-IsSafe :
    (host : Host) (tab : Tab) (s : Shown) (t : Template)
    → IsPlainHost host
    → IsPlainState s
    → render host tab s ≡ some t
    → IsSafe t
unfolding render
render-IsSafe host tab (of_network s) t h p e = content-IsSafe host tab s t h p e
render-IsSafe host tab (of_client s) t h p e = client_content-IsSafe host tab s t h e

-- Whatever the host's clock and calendar write without brackets and quotes, and whatever the state
-- holds, if on the server's pages the ids of the devices and the ids and protocols of the mappings
-- are free of brackets and quotes (in the desktop client there is no condition): the content of each
-- tab has the tags that it has with every name, address, detail, error, value and number emptied,
-- and ends outside of them.
pub render-IsInert :
    (host : Host) (tab : Tab) (s : Shown) (t : Template)
    → IsPlainHost host
    → IsPlainState s
    → render host tab s ≡ some t
    → IsInert t
render-IsInert host tab s t h p e = safe-IsInert t (render-IsSafe host tab s t h p e)

-- The same holds for the line of the live status.
pub render_live-IsInert :
    (host : Host) (s : Shown) → IsPlainHost host → IsInert (render_live host s)
unfolding render_live live client_live flow is_clean
render_live-IsInert host (of_network s) h = safe-IsInert (live host) (refl, rw h.clock_plain refl)
render_live-IsInert host (of_client s) h = safe-IsInert (client_live s) (refl, refl)
