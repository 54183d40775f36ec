-- ===== src/Desktop/Script/Own.antt =====
-- The script runs for the client's own page only.
use net_conductor.Base.{◌≡◌, Bool, false, ◌⊎◌, Option, some, List, [], ◌∷◌, Bool-cases, inl, inr}
use net_conductor.Base.Text.{Text, codes}
use net_conductor.Desktop.Shell.{is_denied, Event, launched, ready, run}
use net_conductor.Desktop.Shell.Address.{IsOwnPage, allowed-own}
use net_conductor.Desktop.Script.{arguments, system_proxy}

started-allowed :
    {V : Type 0} (parse : Text → Option V) (script origin : Text) (url : Option Text)
    (action : Text) (out : Option Text) (args : List Text)
    → (system_proxy parse script origin url action out).0 ≡ args ∷ []
    → (is_denied origin url action ≡ false) × (args ≡ arguments script action)
unfolding system_proxy
started-allowed parse script origin url action out args h =
    elim (Bool-cases (is_denied origin url action)) [
      | inl q ↦ let e = rw q at h in cc
      | inr q ↦ let e = rw q at h in (q, cc)
    ]

-- After the start, with any configuration and in either mode, any sequence of events and whatever
-- the script answers: if a call for the system proxy starts the script, then it comes from a frame
-- whose address is http://127.0.0.1:PORT/#desktop with a port of one or more decimal digits, its
-- action is "enable", "restore" or "status", and the script gets this action and nothing else of the
-- call.
pub script-own :
    {V : Type 0} (parse : Text → Option V) (script : Text) (c : Option Text) (hidden : Bool)
    (es : List Event) (url : Option Text) (action : Text) (out : Option Text) (args : List Text)
    → (system_proxy parse script (run es (ready c hidden launched)).origin url action out).0
      ≡ args ∷ []
    → (args ≡ arguments script action)
      × ((u : Text) × (url ≡ some u)
          × IsOwnPage u
          × ((action ≡ codes "enable") ⊎ ((action ≡ codes "restore") ⊎ (action ≡ codes "status"))))
script-own parse script c hidden es url action out args h =
    let (q, e) =
      started-allowed parse script (run es (ready c hidden launched)).origin url action out args
        h in
    (e, allowed-own c hidden es url action q)
