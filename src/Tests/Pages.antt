-- ===== src/Tests/Pages.antt =====
-- The pages, the dialogs, the version check and the terminals of web/static/app.js, at concrete
-- inputs.
use net_conductor.Base.{
  ◌≤◌, ◌==◌, if◌then◌else◌, ℕ, ◌≡◌, refl, true, false, some, List, [], ◌∷◌, ◌||◌, ltb, leb, All,
}
use net_conductor.Base.Text.{codes, text_eq}
use net_conductor.Base.Decimal.{decimal}
use net_conductor.Base.Table.{get}
use net_conductor.Console.Template.Safe.{IsInert}
use net_conductor.Console.State.{Device, Mapping, Network}
use net_conductor.Console.Format.{Host}
use net_conductor.Console.Format.Plain.{IsPlainHost}
use net_conductor.Console.Parts.{modal}
use net_conductor.Console.Pages.Render.{of_network, render}
use net_conductor.Console.Pages.Server.{maps, maps_page, content}
use net_conductor.Console.Pages.Inert.{IsPlainNetwork, render-IsInert}
use net_conductor.Console.Dialogs.{Dialog, dialog, policy, policy_dialog}
use net_conductor.Console.Dialogs.Frames.{page_modal, written}
use net_conductor.Console.Dialogs.Inert.{written-IsInert}
use net_conductor.Console.Dialogs.Requests.{text, number, line_of, proxy_values, save_settings}
use net_conductor.Console.Dialogs.Requests.Settings.{settings-saved}
use net_conductor.Console.Dialogs.Submit.{
  start as no_forms, run as run_forms, modal_called, submitted, succeeded, failed, refreshed,
}
use net_conductor.Console.Dialogs.Submit.Once.{working, submitted_once}
use net_conductor.Console.Number.{scaled}
use net_conductor.Console.Policy.{has}
use net_conductor.Console.Version.{can_remote}
use net_conductor.Console.Version.Release.{release-allowed}
use net_conductor.Console.Terminal.{
  start, run, ssh_clicked, close_clicked, socket_opened, socket_message, socket_closed, typed,
  resized,
}
use net_conductor.Console.Terminal.Closing.{is_live, IsOwn}
use net_conductor.Console.Terminal.Own.{sessions-IsOwn}

-- A device with a name that looks like markup.
abbrev laptop : Device
laptop = record {
  id = codes "d1";
  name = codes "<img src=x onerror='a()'>";
  ip = codes "10.20.0.3";
  os = codes "windows";
  status = codes "online";
  latency_ms = 24;
  rx = 5000;
  tx = 3000000;
  handshake = 1760000000;
  proxy_port = 1080;
  proxy_type = codes "socks5";
  proxy_healthy = true;
  ssh_user = [];
  ssh_fingerprint = [];
  ssh_port = 22;
  agent_version = codes "0.12.1";
}

abbrev web : Mapping
web = record {
  id = codes "m1";
  name = codes "\"><script>";
  protocol = codes "http";
  listen_port = 8080;
  device = codes "d1";
  target_port = 80;
  domain = [];
  enabled = true;
  error = codes "listen: <busy>";
}

abbrev network : Network
network = record {
  server_ip = codes "10.20.0.1";
  devices = laptop ∷ [];
  policies = [];
  mappings = web ∷ [];
  events = record { at = codes "2026-01-02T08:00:00Z"; action = codes "<b>"; detail = [] } ∷ [];
}

-- A browser whose clock stands still.
abbrev browser : Host
browser = record {
  locale_date = λ s. codes "2026/1/2 08:00:00";
  iso_date = λ n. codes "2026-01-02T08:00:00.000Z";
  clock = codes "08:00:00";
  upper = λ s. s;
}

browser-IsPlainHost : IsPlainHost browser
browser-IsPlainHost = record {
  locale_plain = λ s. refl;
  upper_plain = λ s p. p;
  clock_plain = refl;
}

network-IsPlainNetwork : IsPlainNetwork network
network-IsPlainNetwork = record {
  devices_plain = (refl, tt);
  mappings_plain = (record { id_plain = refl; protocol_plain = refl }, tt);
}

render-IsInert_example : IsInert (maps_page browser network)
unfolding render content
render-IsInert_example =
    render-IsInert browser maps (of_network network) (maps_page browser network) browser-IsPlainHost
      network-IsPlainNetwork refl

abbrev exits_dialog : Dialog
exits_dialog = policy_dialog (codes "d1") network.policies network.devices

written-IsInert_example : IsInert (modal exits_dialog.title exits_dialog.body)
unfolding written dialog
written-IsInert_example =
    written-IsInert (page_modal (policy (codes "d1")) network)
      (modal exits_dialog.title exits_dialog.body) refl

release-allowed_example :
    can_remote (some laptop) ≡ (text_eq (codes "d1") (codes "cloud") || (ltb 0 0 || leb 2 12))
unfolding decimal
release-allowed_example = release-allowed laptop 0 12 (codes ".1") refl refl

-- The second session is opened before the first one's socket is closed.
abbrev two_sessions : List net_conductor.Console.Terminal.Event
two_sessions =
    ssh_clicked
    ∷ socket_opened 0
    ∷ socket_message 0 (codes "a$ ")
    ∷ typed 0 (codes "ls")
    ∷ close_clicked
    ∷ ssh_clicked
    ∷ socket_closed 0
    ∷ socket_opened 1
    ∷ resized 0
    ∷ resized 1
    ∷ []

sessions-IsOwn_example :
    All IsOwn (run two_sessions start).log
    × ((j k : ℕ)
        → is_live (get j (run two_sessions start).ready) ≡ true
        → is_live (get k (run two_sessions start).ready) ≡ true
        → j ≡ k)
sessions-IsOwn_example = sessions-IsOwn two_sessions

settings-saved_example : save_settings laptop ≡ record {
  method = codes "PUT";
  path = codes "/api/devices/d1";
  body = some (
      (codes "name", text (line_of laptop.name))
      ∷ (
        codes "proxyType",
        text (if has (codes "socks5") proxy_values then codes "socks5" else codes "socks5"),
      )
      ∷ (codes "proxyPort", number (scaled false 1080 true 0))
      ∷ (codes "sshUser", text [])
      ∷ (codes "sshPort", number (scaled false (if 22 == 0 then 22 else 22) true 0))
      ∷ (codes "sshFingerprint", text [])
      ∷ []);
}
settings-saved_example = settings-saved laptop

-- A second form is shown, submitted and refused while the first one's handler waits for `refresh`.
abbrev two_forms : List net_conductor.Console.Dialogs.Submit.Event
two_forms =
    modal_called
    ∷ submitted
    ∷ submitted
    ∷ succeeded 1
    ∷ modal_called
    ∷ submitted
    ∷ failed 2 (codes "in use")
    ∷ refreshed 1
    ∷ []

submitted_once_example :
    let s = run_forms two_forms no_forms in
    (working 1 s ≤ 1) × (working s.shown s ≤ (if s.disabled then 1 else 0))
submitted_once_example = submitted_once two_forms 1
