-- ===== src/Console/Dialogs/Requests/Settings.antt =====
-- Saving the settings of a device without a change.
use net_conductor.Base.{◌≡◌, refl, true, false, ◌==◌, some, [], ◌∷◌, ◌++◌, if◌then◌else◌}
use net_conductor.Base.Text.{codes}
use net_conductor.Console.State.{Device, or_else}
use net_conductor.Console.Number.{scaled}
use net_conductor.Console.Number.Digits.{number-decimal}
use net_conductor.Console.Policy.{has, value_of, selected}
use net_conductor.Console.Dialogs.Requests.{
  text, number, with_key, plus, device_call, line_of, proxy_values, device_form, save_settings,
}

-- Opening the settings of a device and saving them without a change sends the settings that the
-- device has: its name, its SSH user and its fingerprint without line ends, its proxy's port as a
-- number, its proxy's protocol if it is one of the two, else "socks5", and its SSH port as a number,
-- or 22 for none.
pub settings-saved :
    (d : Device)
    → let protocol = or_else d.proxy_type (codes "socks5") in
      save_settings d ≡ record {
        method = codes "PUT";
        path = codes "/api/devices/" ++ d.id;
        body = some (
            (codes "name", text (line_of d.name))
            ∷ (
              codes "proxyType",
              text (if has protocol proxy_values then protocol else codes "socks5"),
            )
            ∷ (codes "proxyPort", number (scaled false d.proxy_port true 0))
            ∷ (codes "sshUser", text (line_of d.ssh_user))
            ∷ (
              codes "sshPort",
              number (scaled false (if d.ssh_port == 0 then 22 else d.ssh_port) true 0),
            )
            ∷ (codes "sshFingerprint", text (line_of d.ssh_fingerprint))
            ∷ []);
      }
unfolding save_settings device_call device_form with_key plus value_of selected
settings-saved d =
    rw (number-decimal d.proxy_port, number-decimal (if d.ssh_port == 0 then 22 else d.ssh_port))
      refl
