-- ===== src/Remote/Link/Finality.antt =====
-- Closing a link settles its calls, closes its connections, and nothing follows.
use net_conductor.Base.{◌∷◌}
use net_conductor.Base.Text.{Text}
use net_conductor.Base.Table.{Table}
use net_conductor.Remote.Link.State.{status, broken, Link, settle_ready}

-- The status line and `ready` that `fail` sees to before it closes.
abbrev failing : Text → Link → Link
failing e l = record l { ready = settle_ready l.ready (broken e); log = status e ∷ l.log }
