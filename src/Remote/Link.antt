-- ===== src/Remote/Link.antt =====
-- Class `Link` of web/static/remote-ui.js: a session with one device, over a peer-to-peer data
-- channel or relayed by the server.
pub mod State
pub mod Receive
pub mod Calls
pub mod Events
pub mod Termination
pub mod Settled
pub mod Assembly
pub mod Holding
pub mod Delivery
pub mod Arrival
pub mod Closed
pub mod Finality
pub mod Bounds
pub mod Relay
