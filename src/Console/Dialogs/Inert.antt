-- ===== src/Console/Dialogs/Inert.antt =====
-- The dialogs, whatever the names and the values in their fields are.
use mathlib.Core.Path.{subst}
use net_conductor.Base.{
  ℕ, zero, suc, ◌≡◌, refl, Bool, true, Option, none, some, List, [], all_of, max, length, ◌+◌,
}
use net_conductor.Base.Text.{Text}
use net_conductor.Console.Template.{Template}
use net_conductor.Console.Template.Tags.{in_double}
use net_conductor.Console.Template.Flow.{flow, is_clean}
use net_conductor.Console.Template.Safe.{
  IsSafe, IsSafeRows, row-IsSafeRows, rows-IsSafeRows, IsInert, safe-IsInert,
}
use net_conductor.Console.State.{Device, Policy, Mapping, Network, Client, device, find_policy}
use net_conductor.Console.Policy.{or_default, exit_at, exit_choices}
use net_conductor.Console.Parts.{field, select, option, modal}
use net_conductor.Console.Dialogs.Frames.{
  code_dialog, terminal_dialog, Written, page_modal, client_modal, enrolled, terminal, framed,
  written,
}
use net_conductor.Console.Dialogs.{
  Dialog, enroll_dialog, device_dialog, exit_label, exit_key, exit_selects, policy_dialog,
  mapping_dialog, delete_dialog, join_dialog, share_dialog, system_proxy_dialog, Request, enroll,
  settings, policy, mapping, delete_map, dialog, LocalRequest, join, share, system_proxy,
  local_dialog, targets, find_mapping, device_dialog_of, delete_dialog_of,
}

-- A template inside of a quoted value.
abbrev IsQuoted : Template → Type 0
IsQuoted t = (flow in_double t ≡ some in_double) × (is_clean t ≡ true)

option-IsSafe : (value : Text) (o : Text × Text) → IsSafe (option value o)
unfolding option flow is_clean
option-IsSafe value (v, t) = (refl, refl)

select-IsSafe :
    (label name : Template) (os : List (Text × Text)) (value : Text)
    → IsSafe label
    → IsQuoted name
    → IsSafe (select label name os value)
unfolding select flow is_clean
select-IsSafe label name os value (f, c) (g, d) =
    let (fr, cr) = rows-IsSafeRows (option value) os (all_of (option-IsSafe value) os) in
    (rw (f, g, fr) refl, rw (c, d, cr) refl)

modal-IsSafe : (title body : Template) → IsSafe title → IsSafe body → IsSafe (modal title body)
unfolding modal flow is_clean
modal-IsSafe title body (f, c) (g, d) = (rw (f, g) refl, rw (c, d) refl)

abbrev IsSafeDialog : Dialog → Type 0
IsSafeDialog d = IsSafe d.title × IsSafe d.body

enroll-IsSafeDialog : IsSafeDialog enroll_dialog
unfolding enroll_dialog flow is_clean field select option
enroll-IsSafeDialog = ((refl, refl), (refl, refl))

device-IsSafeDialog : (d : Device) → IsSafeDialog (device_dialog d)
unfolding device_dialog flow is_clean field select option
device-IsSafeDialog d = ((refl, refl), (refl, refl))

delete-IsSafeDialog : (m : Mapping) → IsSafeDialog (delete_dialog m)
unfolding delete_dialog flow is_clean field select option
delete-IsSafeDialog m = ((refl, refl), (refl, refl))

join-IsSafeDialog : (s : Client) → IsSafeDialog (join_dialog s)
unfolding join_dialog flow is_clean field select option
join-IsSafeDialog s = ((refl, refl), (refl, refl))

share-IsSafeDialog : IsSafeDialog share_dialog
unfolding share_dialog flow is_clean field select option
share-IsSafeDialog = ((refl, refl), (refl, refl))

system_proxy-IsSafeDialog : (enabled : Bool) → IsSafeDialog (system_proxy_dialog enabled)
unfolding system_proxy_dialog flow is_clean field select option
system_proxy-IsSafeDialog enabled = ((refl, refl), (refl, refl))

mapping-IsSafeDialog : (ds : List Device) → IsSafeDialog (mapping_dialog ds)
unfolding mapping_dialog flow is_clean field select option
mapping-IsSafeDialog ds =
    let (f, c) =
      rows-IsSafeRows (option []) (targets ds) (all_of (option-IsSafe []) (targets ds)) in
    ((refl, refl), (rw f refl, rw c refl))

exit_selects-IsSafeRows :
    (n i : ℕ) (es : List Text) (os : List (Text × Text)) → IsSafeRows (exit_selects n i es os)
unfolding exit_selects flow is_clean
exit_selects-IsSafeRows zero i es os = (refl, refl)
exit_selects-IsSafeRows (suc n) i es os =
    row-IsSafeRows (select (exit_label i) (exit_key i) os (exit_at i es))
      (exit_selects n (suc i) es os)
      (select-IsSafe (exit_label i) (exit_key i) os (exit_at i es) (refl, refl) (refl, refl))
      (exit_selects-IsSafeRows n (suc i) es os)

policy-IsSafeDialog :
    (id : Text) (ps : List Policy) (ds : List Device) → IsSafeDialog (policy_dialog id ps ds)
unfolding policy_dialog flow is_clean select option
policy-IsSafeDialog id ps ds =
    let es = (or_default id (find_policy id ps)).exits in
    let (f, c) = exit_selects-IsSafeRows (max 3 (length es + 1)) 0 es (exit_choices ds) in
    ((refl, refl), (rw f refl, rw c refl))

of_some : {d e : Dialog} → some d ≡ some e → d ≡ e
of_some e = cc

found_device-IsSafeDialog :
    (o : Option Device) (d : Dialog) → device_dialog_of o ≡ some d → IsSafeDialog d
found_device-IsSafeDialog none d e = cc
found_device-IsSafeDialog (some x) d e = subst IsSafeDialog (of_some e) (device-IsSafeDialog x)

found_mapping-IsSafeDialog :
    (o : Option Mapping) (d : Dialog) → delete_dialog_of o ≡ some d → IsSafeDialog d
found_mapping-IsSafeDialog none d e = cc
found_mapping-IsSafeDialog (some m) d e = subst IsSafeDialog (of_some e) (delete-IsSafeDialog m)

dialog-IsSafeDialog :
    (r : Request) (s : Network) (d : Dialog) → dialog r s ≡ some d → IsSafeDialog d
unfolding dialog
dialog-IsSafeDialog enroll s d e = subst IsSafeDialog (of_some e) enroll-IsSafeDialog
dialog-IsSafeDialog (settings id) s d e = found_device-IsSafeDialog (device id s.devices) d e
dialog-IsSafeDialog (policy id) s d e =
    subst IsSafeDialog (of_some e) (policy-IsSafeDialog id s.policies s.devices)
dialog-IsSafeDialog mapping s d e = subst IsSafeDialog (of_some e) (mapping-IsSafeDialog s.devices)
dialog-IsSafeDialog (delete_map id) s d e =
    found_mapping-IsSafeDialog (find_mapping id s.mappings) d e

local-IsSafeDialog : (r : LocalRequest) (s : Client) → IsSafeDialog (local_dialog r s)
unfolding local_dialog
local-IsSafeDialog join s = join-IsSafeDialog s
local-IsSafeDialog share s = share-IsSafeDialog
local-IsSafeDialog (system_proxy enabled) s = system_proxy-IsSafeDialog enabled

code-IsSafe : (code : Text) → IsSafe (code_dialog code)
unfolding code_dialog flow is_clean
code-IsSafe code = (refl, refl)

terminal-IsSafe : (id : Text) (ds : List Device) → IsSafe (terminal_dialog id ds)
unfolding terminal_dialog flow is_clean
terminal-IsSafe id ds = (refl, refl)

of_some_template : {t u : Template} → some t ≡ some u → t ≡ u
of_some_template e = cc

framed-IsSafe :
    (o : Option Dialog) (t : Template)
    → ((d : Dialog) → o ≡ some d → IsSafeDialog d)
    → framed o ≡ some t
    → IsSafe t
framed-IsSafe none t h e = cc
framed-IsSafe (some d) t h e =
    let (a, b) = h d refl in subst IsSafe (of_some_template e) (modal-IsSafe d.title d.body a b)

written-IsSafe : (w : Written) (t : Template) → written w ≡ some t → IsSafe t
unfolding written
written-IsSafe (page_modal r s) t e = framed-IsSafe (dialog r s) t (dialog-IsSafeDialog r s) e
written-IsSafe (client_modal r s) t e =
    framed-IsSafe (some (local_dialog r s)) t
      (λ d q. subst IsSafeDialog (of_some q) (local-IsSafeDialog r s)) e
written-IsSafe (enrolled code) t e = subst IsSafe (of_some_template e) (code-IsSafe code)
written-IsSafe (terminal id s) t e =
    subst IsSafe (of_some_template e) (terminal-IsSafe id s.devices)

-- Whatever the states of the server and of the client's service hold, without any condition on their
-- texts, and whatever the code of an enrollment is: what is written into the dialog element, for each
-- button of the pages, the code and the terminal, has the tags that it has with every value emptied,
-- and ends outside of them.
pub written-IsInert : (w : Written) (t : Template) → written w ≡ some t → IsInert t
written-IsInert w t e = safe-IsInert t (written-IsSafe w t e)
