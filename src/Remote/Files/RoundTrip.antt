-- ===== src/Remote/Files/RoundTrip.antt =====
-- A file that goes to a device and comes back, by the two transfers of web/static/remote-ui.js.
use net_conductor.Base.Text.{Text}
