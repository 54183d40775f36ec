-- ===== src/Console/State.antt =====
-- The state that web/static/app.js shows: the answers of the server and of the desktop client's
-- service to `refresh`, as far as the pages read them, and the lookups in them.
use net_conductor.Base.{ℕ, Bool, true, false, Option, none, some, List, [], ◌∷◌, if◌then◌else◌}
use net_conductor.Base.Text.{Text, codes, text_eq}

pub record Device : Type 0 where
  pub id : Text
  pub name : Text
  pub ip : Text
  pub os : Text
  pub status : Text
  pub latency_ms : ℕ
  pub rx : ℕ
  pub tx : ℕ
  pub handshake : ℕ
  pub proxy_port : ℕ
  pub proxy_type : Text
  pub proxy_healthy : Bool
  pub ssh_user : Text
  pub ssh_fingerprint : Text
  pub ssh_port : ℕ
  pub agent_version : Text

pub record Policy : Type 0 where
  pub source : Text
  pub exits : List Text
  pub on_failure : Text
  pub active : Text

pub record Mapping : Type 0 where
  pub id : Text
  pub name : Text
  pub protocol : Text
  pub listen_port : ℕ
  pub device : Text
  pub target_port : ℕ
  pub domain : Text
  pub enabled : Bool
  pub error : Text

pub record Event : Type 0 where
  pub at : Text
  pub action : Text
  pub detail : Text

pub record Check : Type 0 where
  pub name : Text
  pub ok : Bool
  pub detail : Text

-- The answer of `/api/state`.
pub record Network : Type 0 where
  pub server_ip : Text
  pub devices : List Device
  pub policies : List Policy
  pub mappings : List Mapping
  pub events : List Event

pub record Share : Type 0 where
  pub local_port : ℕ
  pub listen_port : ℕ

-- The answer of `/api/local/state`.
pub record Client : Type 0 where
  pub name : Text
  pub ip : Text
  pub server : Text
  pub interface : Text
  pub proxy_listen : Text
  pub status : Text
  pub last_error : Text
  pub last_sync : Text
  pub latency_ms : ℕ
  pub checks : List Check
  pub events : List Event
  pub enrolled : Bool
  pub rx : ℕ
  pub tx : ℕ
  pub exit_name : Text
  pub shares : List Share
  pub tunnel_ready : Bool

-- `state.devices.find((d) => d.id === id)`
unfoldable pub device : Text → List Device → Option Device
device id [] = none
device id (d ∷ ds) = if text_eq d.id id then some d else device id ds

-- `state.policies.find((x) => x.source === id)`
unfoldable pub find_policy : Text → List Policy → Option Policy
find_policy id [] = none
find_policy id (p ∷ ps) = if text_eq p.source id then some p else find_policy id ps

abbrev pub is_blank : Text → Bool
is_blank [] = true
is_blank (c ∷ t) = false

-- `s || t` for texts
abbrev pub or_else : Text → Text → Text
or_else [] t = t
or_else (c ∷ s) t = c ∷ s

-- `o?.name`; the empty text stands for `undefined`, which `||` and `esc` do not tell from it.
abbrev pub name_of : Option Device → Text
name_of none = []
name_of (some d) = d.name

abbrev pub ip_of : Option Device → Text
ip_of none = []
ip_of (some d) = d.ip

-- `deviceName(id)`
unfoldable pub device_name : Text → List Device → Text
unfolding device
device_name id ds =
    if text_eq id (codes "DIRECT")
    then codes "直接连接"
    else or_else (name_of (device id ds)) (or_else id (codes "暂无"))
