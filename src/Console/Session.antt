-- ===== src/Console/Session.antt =====
-- The login state of web/static/app.js: `refresh` with its guard, `api` on a refused login, the
-- login form, the logout and the interval.
pub mod Guard
use net_conductor.Base.{
  ℕ, zero, suc, ◌+◌, Bool, true, false, ◌&&◌, ◌||◌, not, Option, none, some, List, [], ◌∷◌,
  if◌then◌else◌,
}

-- What the page shows.
pub data View : Type 0 where
  empty : View
  login_form : View
  pages : View
  failed_agent : View

-- `agent` is whether the page runs in the desktop client; `requests` counts the requests for the
-- state that have no answer yet, `logins` and `logouts` those of the form and of the logout.
pub record Console : Type 0 where
  pub agent : Bool
  pub authenticated : Bool
  pub refreshing : Bool
  pub has_state : Bool
  pub view : View
  pub requests : ℕ
  pub logins : ℕ
  pub logouts : ℕ

unfoldable pub loaded : Bool → Console
loaded agent = record {
  agent = agent;
  authenticated = false;
  refreshing = false;
  has_state = false;
  view = empty;
  requests = 0;
  logins = 0;
  logouts = 0;
}

-- How a request comes out: the JSON value, status 401, or any other failure.
pub data Answer : Type 0 where
  ok : Answer
  unauthorized : Answer
  failed : Answer

-- `login()`
unfoldable pub login : Console → Console
login c = if c.agent then c else record c { view = login_form }

-- What `api` does before it throws.
unfoldable pub on_refused : Answer → Console → Console
unfolding login
on_refused ok c = c
on_refused failed c = c
on_refused unauthorized c = if c.agent then c else login (record c { authenticated = false })

-- `refresh()` up to its request.
unfoldable pub refresh : Console → Console
refresh c = if c.refreshing then c else record c { refreshing = true; requests = suc c.requests }

-- `refresh()` after the answer. Where an answer fails and the login form is shown, the line for the
-- live status throws, after which `finally` does what it does otherwise.
unfoldable pub refreshed : Answer → Console → Console
unfolding on_refused
refreshed ok c = record c {
  authenticated = true;
  has_state = true;
  view = pages;
  refreshing = false;
}
refreshed unauthorized c =
    let d = on_refused unauthorized c in
    if d.agent
    then record d { view = failed_agent; refreshing = false }
    else record d { refreshing = false }
refreshed failed c =
    if c.agent
    then record c { view = failed_agent; refreshing = false }
    else record c { refreshing = false }

-- `logins` and `logouts` go down by one with each answer; an answer without its request is none.
abbrev pub on_login : Answer → Console → Console
on_login ok c = refresh (record c { authenticated = true })
on_login unauthorized c = on_refused unauthorized c
on_login failed c = c

abbrev pub on_logout : Answer → Console → Console
on_logout ok c = login (record c { authenticated = false })
on_logout unauthorized c = on_refused unauthorized c
on_logout failed c = c

unfoldable pub take_answer : ℕ → Answer → Console → Console
unfolding refreshed
take_answer zero a c = c
take_answer (suc n) a c = refreshed a (record c { requests = n })

unfoldable pub take_login : ℕ → Answer → Console → Console
unfolding refresh on_refused
take_login zero a c = c
take_login (suc n) a c = on_login a (record c { logins = n })

unfoldable pub take_logout : ℕ → Answer → Console → Console
unfolding login on_refused
take_logout zero a c = c
take_logout (suc n) a c = on_logout a (record c { logouts = n })

-- `ticked` is the interval of three seconds, `refresh_called` the call of `refresh` at the end of an
-- action, and `refused` any other request that fails.
pub data Event : Type 0 where
  ticked : Event
  refresh_called : Event
  refresh_answered : Answer → Event
  login_submitted : Event
  login_answered : Answer → Event
  logout_clicked : Event
  logout_answered : Answer → Event
  refused : Answer → Event

unfoldable pub tick : Console → Console
unfolding refresh
tick c = if c.agent || c.authenticated then refresh c else c

unfoldable pub step : Event → Console → Console
unfolding tick refresh take_answer take_login take_logout on_refused
step ticked c = tick c
step refresh_called c = refresh c
step (refresh_answered a) c = take_answer c.requests a c
step login_submitted c = record c { logins = suc c.logins }
step (login_answered a) c = take_login c.logins a c
step logout_clicked c = record c { logouts = suc c.logouts }
step (logout_answered a) c = take_logout c.logouts a c
step (refused a) c = on_refused a c

unfoldable pub run : List Event → Console → Console
unfolding step
run [] c = c
run (e ∷ es) c = run es (step e c)

-- The script calls `refresh` when it is loaded.
unfoldable pub start : Bool → Console
unfolding loaded refresh
start agent = refresh (loaded agent)
