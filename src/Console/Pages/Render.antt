-- ===== src/Console/Pages/Render.antt =====
-- `render` in web/static/app.js, on the server's pages and in the desktop client.
use net_conductor.Base.{Option}
use net_conductor.Console.Template.{Template}
use net_conductor.Console.State.{Network, Client}
use net_conductor.Console.Format.{Host}
use net_conductor.Console.Pages.Server.{Tab, content, live}
use net_conductor.Console.Pages.Client.{client_content, client_live}

-- `state`: in the desktop client (`agent`), that of its service.
pub data Shown : Type 0 where
  of_network : Network → Shown
  of_client : Client → Shown

-- What `render` writes to `#content`: `renderAgent` in the client, the server's pages otherwise.
unfoldable pub render : Host → Tab → Shown → Option Template
unfolding content client_content
render host tab (of_network s) = content host tab s
render host tab (of_client s) = client_content host tab s

-- What it writes to `#live`.
unfoldable pub render_live : Host → Shown → Template
unfolding live client_live
render_live host (of_network s) = live host
render_live host (of_client s) = client_live s
