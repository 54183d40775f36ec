-- ===== src/Console/Dialogs/Requests.antt =====
-- The requests that the dialogs of `action` in web/static/app.js send with their forms.
pub mod Settings
use net_conductor.Base.{
  ℕ, Bool, true, false, ◌==◌, ◌||◌, Option, none, some, List, [], ◌∷◌, ◌++◌, if◌then◌else◌,
}
use net_conductor.Base.Text.{Text, codes, text_eq}
use net_conductor.Base.Decimal.{decimal}
use net_conductor.Console.State.{Device, Policy, or_else}
use net_conductor.Console.Number.{Numeral, number_of}
use net_conductor.Console.Policy.{Form, value_of, selected, policy_body}

pub data Value : Type 0 where
  text : Text → Value
  number : Numeral → Value
  flag : Bool → Value
  texts : List Text → Value

abbrev pub Body : Type 0
Body = List (Text × Value)

-- The arguments of `api`.
pub record Call : Type 0 where
  pub method : Text
  pub path : Text
  pub body : Option Body

-- `{ ...v }`
abbrev pub from_form : Form → Body
from_form [] = []
from_form ((k, x) ∷ v) = (k, text x) ∷ from_form v

-- `{ ...b, k: x }`: a key that is there keeps its place.
unfoldable pub with_key : Text → Value → Body → Body
with_key k x [] = (k, x) ∷ []
with_key k x ((l, y) ∷ b) = if text_eq l k then (l, x) ∷ b else (l, y) ∷ with_key k x b

-- `+v.k`, for a field of the form
unfoldable pub plus : Text → Form → Value
unfolding value_of
plus k v = number (number_of (value_of k v))

unfoldable pub enroll_call : Form → Call
enroll_call v = record {
  method = codes "POST";
  path = codes "/api/enrollment";
  body = some (from_form v);
}

unfoldable pub device_call : Text → Form → Call
unfolding with_key plus
device_call id v = record {
  method = codes "PUT";
  path = codes "/api/devices/" ++ id;
  body = some (
      with_key (codes "sshPort") (plus (codes "sshPort") v)
        (with_key (codes "proxyPort") (plus (codes "proxyPort") v) (from_form v)));
}

abbrev policy_value : Policy → Body
policy_value p =
    (codes "source", text p.source)
    ∷ (codes "exits", texts p.exits)
    ∷ (codes "onFailure", text p.on_failure)
    ∷ (codes "active", text p.active)
    ∷ []

unfoldable pub policy_call : Text → Form → Call
unfolding policy_body
policy_call id v = record {
  method = codes "PUT";
  path = codes "/api/policies/" ++ id;
  body = some (policy_value (policy_body id v));
}

unfoldable pub mapping_call : Form → Call
unfolding with_key plus
mapping_call v = record {
  method = codes "POST";
  path = codes "/api/mappings";
  body = some (
      with_key (codes "error") (text []) (
        with_key (codes "id") (text []) (
          with_key (codes "enabled") (flag true) (
            with_key (codes "targetPort") (plus (codes "targetPort") v)
              (with_key (codes "listenPort") (plus (codes "listenPort") v) (from_form v))))));
}

unfoldable pub delete_call : Text → Call
delete_call id = record {
  method = codes "DELETE";
  path = codes "/api/mappings/" ++ id;
  body = none;
}

unfoldable pub join_call : Form → Call
unfolding with_key value_of
join_call v = record {
  method = codes "POST";
  path = codes "/api/local/join";
  body = some (
      with_key (codes "adopt") (flag (text_eq (value_of (codes "adopt") v) (codes "true")))
        (from_form v));
}

unfoldable pub share_call : Form → Call
unfolding plus
share_call v = record {
  method = codes "POST";
  path = codes "/api/local/share";
  body = some (
      (codes "port", plus (codes "port") v)
      ∷ (codes "listenPort", plus (codes "listenPort") v)
      ∷ []);
}

-- The requests of the buttons without a dialog.
abbrev pub logout_call : Call
logout_call = record { method = codes "POST"; path = codes "/api/logout"; body = some [] }

abbrev pub diagnose_call : Call
diagnose_call = record { method = codes "POST"; path = codes "/api/local/diagnose"; body = some [] }

abbrev pub repair_call : Call
repair_call = record { method = codes "POST"; path = codes "/api/local/repair"; body = some [] }

-- The value that a field of type "text" takes on: the browser leaves out the line ends.
abbrev pub line_of : Text → Text
line_of [] = []
line_of (c ∷ s) = let rest = line_of s in if c == 10 || c == 13 then rest else c ∷ rest

abbrev pub proxy_values : List Text
proxy_values = codes "socks5" ∷ codes "http" ∷ []

-- The form of a device's settings, left alone.
unfoldable pub device_form : Device → Form
unfolding selected
device_form d =
    (codes "name", line_of d.name)
    ∷ (codes "proxyType", selected (or_else d.proxy_type (codes "socks5")) proxy_values)
    ∷ (codes "proxyPort", decimal d.proxy_port)
    ∷ (codes "sshUser", line_of d.ssh_user)
    ∷ (codes "sshPort", decimal (if d.ssh_port == 0 then 22 else d.ssh_port))
    ∷ (codes "sshFingerprint", line_of d.ssh_fingerprint)
    ∷ []

-- The settings of a device, opened and saved without a change.
unfoldable pub save_settings : Device → Call
unfolding device_call device_form
save_settings d = device_call d.id (device_form d)
