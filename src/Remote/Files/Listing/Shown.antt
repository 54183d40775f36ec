-- ===== src/Remote/Files/Listing/Shown.antt =====
-- What `load` writes of a listing.
use net_conductor.Base.{List}
use net_conductor.Base.Text.{Text}
