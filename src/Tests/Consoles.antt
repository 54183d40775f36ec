-- ===== src/Tests/Consoles.antt =====
-- The web console, web/static/app.js, at concrete inputs.
use Prim.Native.String.{String}
use net_conductor.Base.{ℕ, true, ◌≡◌, refl, false, some, List, [], ◌∷◌, ◌++◌, if◌then◌else◌}
use net_conductor.Base.Text.{codes}
use net_conductor.Console.Markup.{esc}
use net_conductor.Console.Markup.Reading.{read_until, escaped-read}
use net_conductor.Console.State.{Device, Policy, find_policy}
use net_conductor.Console.Policy.{exit_options, has, failure_options, or_default, save_unchanged}
use net_conductor.Console.Policy.Saving.{offered, saved_policy, policy-saved}
use net_conductor.Console.Session.{
  Console, ok, unauthorized, Event, ticked, refresh_answered, login_submitted, login_answered,
  refused, loaded, login, run, start,
}
use net_conductor.Console.Session.Guard.{IsLoggedOut, one_request, run-IsLoggedOut}

escaped-read_example :
    read_until b'"' (esc (codes "a \"b\" & <c>") ++ b'"' ∷ codes " >")
    ≡ some (codes "a \"b\" & <c>", codes " >")
escaped-read_example = escaped-read b'"' (codes "a \"b\" & <c>") (codes " >") refl

abbrev sharing : String → String → ℕ → Device
sharing id name port = record {
  id = codes id;
  name = codes name;
  ip = codes "10.20.0.3";
  os = codes "windows";
  status = codes "online";
  latency_ms = 24;
  rx = 5000;
  tx = 3000000;
  handshake = 0;
  proxy_port = port;
  proxy_type = codes "socks5";
  proxy_healthy = true;
  ssh_user = [];
  ssh_fingerprint = [];
  ssh_port = 22;
  agent_version = codes "0.2.0";
}

-- Two devices share a proxy; the policy of the first names them and one that is gone.
abbrev devices : List Device
devices = sharing "d1" "Home" 1080 ∷ sharing "d2" "Work" 1081 ∷ []

abbrev policies : List Policy
policies =
    record {
      source = codes "d1";
      exits = codes "d2" ∷ codes "d9" ∷ codes "d1" ∷ [];
      on_failure = codes "direct";
      active = codes "d2";
    }
    ∷ []

policy-saved_example :
    let p = or_default (codes "d1") (find_policy (codes "d1") policies) in
    save_unchanged (codes "d1") policies devices
    ≡ saved_policy
        (codes "d1")
        (offered (exit_options devices) p.exits)
        (if has p.on_failure failure_options then p.on_failure else codes "block")
policy-saved_example = policy-saved (codes "d1") policies devices

-- Two ticks while the first answer is out.
abbrev opening : List Event
opening = ticked ∷ refresh_answered unauthorized ∷ login_submitted ∷ login_answered ok ∷ ticked ∷ []

one_request_example :
    (run opening (start false)).requests ≡ (if (run opening (start false)).refreshing then 1 else 0)
one_request_example = one_request false opening

-- The login form of the browser.
abbrev logged_out : Console
logged_out = login (loaded false)

logged_out-IsLoggedOut : IsLoggedOut logged_out
unfolding login loaded
logged_out-IsLoggedOut = record {
  in_browser = refl;
  out = refl;
  shown = refl;
  no_request = refl;
  no_login = refl;
}

run-IsLoggedOut_example :
    IsLoggedOut (run (ticked ∷ refresh_answered ok ∷ refused unauthorized ∷ []) logged_out)
run-IsLoggedOut_example =
    run-IsLoggedOut (ticked ∷ refresh_answered ok ∷ refused unauthorized ∷ []) logged_out
      logged_out-IsLoggedOut (refl, (refl, (refl, tt)))
