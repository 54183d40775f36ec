-- ===== src/Lib.antt =====
-- Net Conductor: a web console and a desktop client for a network of devices, with remote
-- terminals, remote desktops and file transfers in the browser. This library models the
-- program's JavaScript.
--
-- Parts of the program and of the library. A session window of the browser (`openRemote` of
-- web/static/remote-ui.js) holds a `Link` to one device: it calls operations and gets results
-- and events, over a WebRTC data channel or, when that fails, through the server over a
-- WebSocket. The device answers with messages that `Session.send` (internal/remote/session.go)
-- cuts into chunks. The file manager calls the link for listings and transfers. For a remote
-- desktop on Windows, the device hands the jobs to the desktop client
-- (desktop/remote-desktop.cjs), which captures the screen and feeds a helper process with the
-- inputs. The console around the sessions (web/static/app.js) polls the server or the local
-- agent and sends the user's changes; desktop/main.cjs shows it in a window.
--
-- - Base: Boolean tests, lists, tables (`Map` in the order of insertion) and texts over the
--   native natural numbers.
-- - Remote/Base64: `decode` and `encode` with `atob` and `btoa` of the browser.
-- - Remote/Protocol: the messages and requests; Remote/Sender: `Session.send`.
-- - Remote/Link: the class `Link`. State has its fields, `useRelay`, `fail` and `close`; Receive
--   has `receive`; Calls has `call` with its time limit; Events has the callbacks and timers of
--   the constructor, and `step` and `run` over the events of a session.
-- - Remote/Files: `join`, the path above and the check of names in Paths; the order and the
--   table of a listing in Listing; `download` and the upload handler in Download and Upload, and
--   the device's side of them (`fileRequest` of internal/remote/session.go) in their children
--   called Content; Manager has the listing, the buttons and the flags between them.
-- - Remote/Screen: the view of a remote desktop in `openRemote`, with its moves and frames.
-- - Desktop/Input: the input helper, the lock and the interval of desktop/remote-desktop.cjs,
--   with the box for one input that it refines in Mailbox; Desktop/Jobs: its job loop.
-- - Desktop/Shell: the checks, the window and the lifecycle of desktop/main.cjs; Desktop/Script:
--   its call of the script for the system proxy and the token of its requests.
-- - Console/Markup: `esc` of web/static/app.js; Console/Template: its template strings as data,
--   with a reader of markup in Tags and the check of a template in Flow; Console/State: the
--   state that it shows; Console/Format: `bytes` and `date`; Console/Parts: `badge`, `panel`,
--   `field`, `select`, `modal` and the like; Console/Pages: the tables in Tables, `shell` and
--   `render` in Server, `renderAgent` in Client, both in Render; Console/Dialogs: the dialogs of
--   `action`, with all that is written into their element in Frames, what they send in Requests
--   and the handler of `modal` in Submit; Console/Number: the language's `Number`;
--   Console/Version: `canRemote`; Console/Terminal: `openSSH` and `closeDialog`; Console/Policy:
--   the dialog for the exits of a device and its request; Console/Session: `api`, `refresh`, the
--   login form, the logout and the interval.
-- - Tests: the theorems at concrete inputs.
--
-- State and time. A JavaScript callback runs to its end before the next one, so that a session
-- is a list of events, one for each callback that runs and for each `await` that goes on, in any
-- order; what the environment decides (an answer of the server, an exception of the peer
-- connection, the state of a channel, the clock) comes with the event. The promises and timers
-- that a component makes are numbers, and what it does to the outside is written to a log,
-- newest first. Sequence numbers and sizes are natural numbers: they stay below 2^53, up to
-- which a JavaScript number counts exactly.
--
-- Parameters. `parse` is the reading of a text as a message, `JSON.parse` after `TextDecoder`,
-- none where it throws. The theorems on messages that are put together assume of it that the
-- JSON text of a chunk is longer than the base64 text in it (Remote.Link.Termination.Shrinks).
--
-- Console.Format.Host has what the browser's locale data decides: the text of a date, of the
-- clock, and of a text in capitals. The theorems on pages assume of it that it writes no
-- brackets and no quotes (Console.Format.Plain.IsPlainHost). The order of names,
-- `localeCompare`, and the text of a size, `toLocaleString`, are parameters too
-- (Remote.Files.Listing).
--
-- Fuel. `receive` calls itself on the message that a last chunk completes. The text of a message
-- is never longer than what its part holds, so each further call consumes stored bytes; the fuel
-- of `receive_all` is the number of bytes stored and received, plus two, and
-- Remote.Link.Termination.receive_all-ends shows it to be enough. `send_pieces` has one round
-- for each byte, `decimal` one for each unit of its number, and a reader of escaped text one for
-- each character; each round takes at least one. All other loops are structural.
--
-- Not modelled: the messages of `toast` and the classes that `render` toggles
-- (web/static/app.js), the terminal view of web/static/remote-ui.js and its markup but that of a
-- listing, the vendored terminal (web/static/xterm.js, web/static/addon-fit.js), the three lines
-- of desktop/preload.cjs, the PowerShell script of the system proxy, and the Go programs apart
-- from the parts named above.
mod Base
pub mod Remote
pub mod Desktop
pub mod Console
mod Tests
