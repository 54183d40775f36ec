-- ===== src/Console/Policy.antt =====
-- The dialog for the exits of a device, the action "policy" of web/static/app.js.
pub mod Saving
use net_conductor.Base.{
  ℕ, zero, suc, ◌+◌, Bool, true, false, ◌&&◌, ◌||◌, ◌==◌, not, Option, none, some, List, [], ◌∷◌,
  ◌++◌, max, ltb, if◌then◌else◌, length, map,
}
use net_conductor.Base.Text.{Text, codes, text_eq}
use net_conductor.Base.Decimal.{decimal}
use net_conductor.Console.State.{Device, Policy, find_policy, is_blank}

-- `["", "不设置"]` and the shared devices, as the options' values and texts.
unfoldable pub exit_choices : List Device → List (Text × Text)
exit_choices ds = ([], codes "不设置") ∷ shared ds
  where
    shared : List Device → List (Text × Text)
    shared [] = []
    shared (d ∷ ds) = if ltb 0 d.proxy_port then (d.id, d.name) ∷ shared ds else shared ds

abbrev values_of : List (Text × Text) → List Text
values_of [] = []
values_of ((v, t) ∷ os) = v ∷ values_of os

-- The values of the options for an exit.
unfoldable pub exit_options : List Device → List Text
unfolding exit_choices
exit_options ds = values_of (exit_choices ds)

abbrev pub has : Text → List Text → Bool
has v [] = false
has v (o ∷ os) = text_eq o v || has v os

abbrev pub first : List Text → Text
first [] = []
first (o ∷ os) = o

-- The value of a `<select>` that the user leaves alone: the options equal to `value` are marked
-- as selected; where there is none, the browser selects the first option.
unfoldable pub selected : Text → List Text → Text
selected value os = if has value os then value else first os

-- `p.exits[i] || ""`
abbrev pub exit_at : ℕ → List Text → Text
exit_at i [] = []
exit_at zero (e ∷ es) = e
exit_at (suc i) (e ∷ es) = exit_at i es

abbrev pub Form : Type 0
Form = List (Text × Text)

-- The rows `i`, `i + 1`, … of the dialog, as the entries of its form when the user leaves them
-- alone: `"exit" + i` with its value.
unfoldable pub exit_rows : ℕ → ℕ → List Text → List Text → Form
unfolding selected
exit_rows zero i es os = []
exit_rows (suc n) i es os =
    (codes "exit" ++ decimal i, selected (exit_at i es) os) ∷ exit_rows n (suc i) es os

abbrev pub failure_choices : List (Text × Text)
failure_choices = (codes "block", codes "停止代理") ∷ (codes "direct", codes "直接连接") ∷ []

abbrev pub failure_options : List Text
failure_options = values_of failure_choices

-- `state.policies.find(…) || { exits: [], onFailure: "block" }`
abbrev pub or_default : Text → Option Policy → Policy
or_default id (some p) = p
or_default id none = record { source = id; exits = []; on_failure = codes "block"; active = [] }

-- The form of the dialog, left alone.
unfoldable pub policy_form : Policy → List Device → Form
unfolding exit_rows selected exit_options
policy_form p ds =
    exit_rows (max 3 (length p.exits + 1)) 0 p.exits (exit_options ds)
    ++ (codes "onFailure", selected p.on_failure failure_options) ∷ []

-- `k.startsWith(prefix)`
abbrev pub starts_with : Text → Text → Bool
starts_with [] k = true
starts_with (p ∷ ps) [] = false
starts_with (p ∷ ps) (c ∷ k) = p == c && starts_with ps k

-- `Object.entries(v).filter(([k, x]) => k.startsWith("exit") && x).map(([, x]) => x)`
unfoldable pub chosen_exits : Form → List Text
chosen_exits [] = []
chosen_exits ((k, x) ∷ v) =
    if starts_with (codes "exit") k && not (is_blank x) then x ∷ chosen_exits v else chosen_exits v

-- `v[k]`, where no key stands twice
unfoldable pub value_of : Text → Form → Text
value_of k [] = []
value_of k ((l, x) ∷ v) = if text_eq l k then x else value_of k v

-- The body of the request `PUT /api/policies/id`.
unfoldable pub policy_body : Text → Form → Policy
unfolding chosen_exits value_of
policy_body id v = record {
  source = id;
  exits = chosen_exits v;
  on_failure = value_of (codes "onFailure") v;
  active = [];
}

-- The dialog for the device `id`, opened and saved without a change.
unfoldable pub save_unchanged : Text → List Policy → List Device → Policy
unfolding policy_body policy_form find_policy exit_rows selected exit_options chosen_exits value_of
save_unchanged id ps ds = policy_body id (policy_form (or_default id (find_policy id ps)) ds)
