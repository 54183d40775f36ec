-- ===== src/Console/Pages/Safe.antt =====
-- The parts of the pages, as safe templates.
use Prim.Native.String.{String}
use net_conductor.Base.{ℕ, ◌≡◌, refl, Bool, true, List, All, map-All, all_of, take, reverse}
use net_conductor.Base.Text.{Text, codes}
use net_conductor.Console.Template.{Template}
use net_conductor.Console.Template.Tags.{in_text, is_plain, mode_after}
use net_conductor.Console.Template.Flow.{flow, is_clean}
use net_conductor.Console.Template.Safe.{IsSafe, rows-IsSafeRows, joined-IsSafeRows}
use net_conductor.Console.State.{Device, Policy, Mapping, Event, Check, find_policy}
use net_conductor.Console.Format.Plain.{IsPlainHost, date-plain, bytes-plain}
use net_conductor.Console.Format.{Host}
use net_conductor.Console.Parts.{badge, panel, events, event_row, check_row, checks}
use net_conductor.Console.Pages.Tables.{
  detail_cells, device_row, device_table, exit_tag, policy_row, policy_table, exits_of, separator,
  mapping_row, mapping_table,
}

-- What the server chooses for a mapping is plain; its name and its domain are whatever they are.
pub record IsPlainMapping (m : Mapping) : Type 0 where
  pub id_plain : is_plain m.id ≡ true
  pub protocol_plain : is_plain m.protocol ≡ true

pub badge-IsSafe : (on : Bool) (text : Text) → IsSafe (badge on text)
unfolding badge flow is_clean
badge-IsSafe on text = (refl, refl)

pub event_row-IsSafe : (host : Host) (e : Event) → IsPlainHost host → IsSafe (event_row host e)
unfolding event_row flow is_clean
event_row-IsSafe host e h = (refl, rw (date-plain host e.at h) refl)

pub device_row-IsSafe :
    (host : Host) (compact : Bool) (d : Device)
    → IsPlainHost host
    → is_plain d.id ≡ true
    → IsSafe (device_row host compact d)
unfolding device_row flow is_clean detail_cells badge
device_row-IsSafe host compact d h p = (
  refl,
  rw (bytes-plain d.tx, bytes-plain d.rx, date-plain host (host.iso_date d.handshake) h, p) refl,
)

pub device_table-IsSafe :
    (host : Host) (compact : Bool) (ds : List Device)
    → IsPlainHost host
    → All (λ d. is_plain d.id ≡ true) ds
    → IsSafe (device_table host compact ds)
unfolding device_table flow is_clean
device_table-IsSafe host compact ds h p =
    let (f, c) =
      rows-IsSafeRows (device_row host compact) ds
        (map-All (λ d. device_row-IsSafe host compact d h) ds p) in
    (rw f refl, rw c refl)

pub exit_tag-IsSafe : (ds : List Device) (id : Text) → IsSafe (exit_tag ds id)
unfolding exit_tag flow is_clean
exit_tag-IsSafe ds id = (refl, refl)

pub policy_row-IsSafe :
    (ps : List Policy) (ds : List Device) (d : Device)
    → is_plain d.id ≡ true
    → IsSafe (policy_row ps ds d)
unfolding policy_row flow is_clean
policy_row-IsSafe ps ds d p =
    let (f, c) =
      joined-IsSafeRows (exit_tag ds) separator (exits_of (find_policy d.id ps)) (refl, refl)
        (all_of (exit_tag-IsSafe ds) (exits_of (find_policy d.id ps))) in
    (rw f refl, rw (c, p) refl)

pub policy_table-IsSafe :
    (ps : List Policy) (ds : List Device)
    → All (λ d. is_plain d.id ≡ true) ds
    → IsSafe (policy_table ps ds)
unfolding policy_table flow is_clean
policy_table-IsSafe ps ds p =
    let (f, c) =
      rows-IsSafeRows (policy_row ps ds) ds (map-All (λ d. policy_row-IsSafe ps ds d) ds p) in
    (rw f refl, rw c refl)

pub mapping_row-IsSafe :
    (host : Host) (ds : List Device) (m : Mapping)
    → IsPlainHost host
    → IsPlainMapping m
    → IsSafe (mapping_row host ds m)
unfolding mapping_row flow is_clean badge
mapping_row-IsSafe host ds m h p =
    (refl, rw (h.upper_plain m.protocol p.protocol_plain, p.id_plain) refl)

pub mapping_table-IsSafe :
    (host : Host) (ds : List Device) (ms : List Mapping)
    → IsPlainHost host
    → All IsPlainMapping ms
    → IsSafe (mapping_table host ds ms)
unfolding mapping_table flow is_clean
mapping_table-IsSafe host ds ms h p =
    let (f, c) =
      rows-IsSafeRows (mapping_row host ds) ms
        (map-All (λ m. mapping_row-IsSafe host ds m h) ms p) in
    (rw f refl, rw c refl)

pub events-IsSafe :
    (host : Host) (n : ℕ) (es : List Event) → IsPlainHost host → IsSafe (events host n es)
unfolding events flow is_clean
events-IsSafe host n es h =
    let shown = take n (reverse es) in
    let (f, c) =
      rows-IsSafeRows (event_row host) shown (all_of (λ e. event_row-IsSafe host e h) shown) in
    (rw f refl, rw c refl)

pub check_row-IsSafe : (c : Check) → IsSafe (check_row c)
unfolding check_row flow is_clean badge
check_row-IsSafe c = (refl, refl)

pub checks-IsSafe : (cs : List Check) → IsSafe (checks cs)
unfolding checks flow is_clean
checks-IsSafe cs =
    let (f, c) = rows-IsSafeRows check_row cs (all_of check_row-IsSafe cs) in (rw f refl, rw c refl)

-- The title and the action are the page's own.
pub panel-IsSafe :
    (t : String) (body action : Template) (sub : Text)
    → mode_after in_text (codes t) ≡ in_text
    → IsSafe body
    → IsSafe action
    → mode_after in_text sub ≡ in_text
    → IsSafe (panel t body action sub)
unfolding panel flow is_clean
panel-IsSafe t body action sub k (f, c) (g, d) m = (rw (k, m, g, f) refl, rw (c, d) refl)
