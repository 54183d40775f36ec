-- ===== src/Desktop/Script.antt =====
-- What desktop/main.cjs does for the page once a call is let through: the handler of "system-proxy"
-- with its script, and the token in the requests to the service.
pub mod Own
use net_conductor.Base.{
  Option, none, some, List, [], ◌∷◌, ◌++◌, ◌&&◌, Bool, true, false, if◌then◌else◌,
}
use net_conductor.Base.Text.{Text, codes, text_eq}
use net_conductor.Desktop.Shell.{is_denied, is_local}

-- The arguments of "powershell.exe", for the script's path.
abbrev pub arguments : Text → Text → List Text
arguments script action =
    codes "-NoProfile"
    ∷ codes "-NonInteractive"
    ∷ codes "-ExecutionPolicy"
    ∷ codes "Bypass"
    ∷ codes "-File"
    ∷ script
    ∷ codes "-Action"
    ∷ action
    ∷ []

-- How the promise of the call comes out: an exception of the handler, the value, or an error.
pub data Answer {ℓ} (V : Type ℓ) : Type ℓ where
  denied : Answer V
  resolved : V → Answer V
  rejected : Text → Answer V

-- The callback of `execFile`, with the output of the script, if it ended well within its time;
-- `parse` is `JSON.parse`, none where it throws.
unfoldable pub on_output {ℓ} : {V : Type ℓ} → (Text → Option V) → Option Text → Answer V
on_output parse none = rejected (codes "系统代理操作失败，请检查备份和当前用户权限")
on_output parse (some out) = elim (parse out) [
  | some v ↦ resolved v
  | none ↦ rejected (codes "Invalid system proxy response")
]

-- The handler of "system-proxy": the scripts that it starts, with their arguments, and its answer.
unfoldable pub system_proxy {ℓ} :
    {V : Type ℓ}
    → (Text → Option V)
    → Text
    → Text
    → Option Text
    → Text
    → Option Text
    → List (List Text) × Answer V
unfolding is_denied on_output
system_proxy parse script origin url action out =
    if is_denied origin url action
    then ([], denied)
    else (arguments script action ∷ [], on_output parse out)

-- The configuration's `localListen` and `localToken`.
pub record Config : Type 0 where
  pub local_listen : Text
  pub local_token : Text

-- `readConfig()`, from what the file holds, if it can be read and parsed.
unfoldable pub read_config : Option Config → Option Config
unfolding is_local
read_config none = none
read_config (some c) = if is_local c.local_listen then some c else none

abbrev pub Headers : Type 0
Headers = List (Text × Text)

unfoldable pub set_header : Text → Text → Headers → Headers
set_header k v [] = (k, v) ∷ []
set_header k v ((l, w) ∷ hs) = if text_eq l k then (l, v) ∷ hs else (l, w) ∷ set_header k v hs

-- `onBeforeSendHeaders`, for a request to `origin + "/api/*"`; the file is read for each request.
unfoldable pub on_before_send : Option Config → Headers → Headers
unfolding read_config set_header
on_before_send file hs = elim (read_config file) [
  | some c ↦ set_header (codes "Authorization") (codes "Bearer " ++ c.local_token) hs
  | none ↦ hs
]
