-- ===== src/Console/Session/Guard.antt =====
-- The guard of `refresh`, and a console that is logged out.
use net_conductor.Base.{
  ℕ, zero, suc, ◌≡◌, ◌≢◌, if_both, refl, Bool, true, false, ◌||◌, List, [], ◌∷◌, arith,
  if◌then◌else◌, All,
}
use net_conductor.Console.Session.{
  login_form, Console, loaded, Answer, ok, unauthorized, failed, login, on_refused, refresh,
  refreshed, take_answer, take_login, take_logout, Event, ticked, refresh_called, refresh_answered,
  login_submitted, login_answered, logout_clicked, logout_answered, refused, tick, step, run, start,
}

-- The guard is up exactly while a request for the state is out, and there is one at most.
abbrev pub IsGuarded : Console → Type 0
IsGuarded c = c.requests ≡ (if c.refreshing then 1 else 0)

on_refused-IsGuarded : (a : Answer) (c : Console) → IsGuarded c → IsGuarded (on_refused a c)
unfolding on_refused login
on_refused-IsGuarded a c v = ground arith

refresh-IsGuarded : (c : Console) → IsGuarded c → IsGuarded (refresh c)
unfolding refresh
refresh-IsGuarded c v = ground arith

take_answer-IsGuarded :
    (n : ℕ) (a : Answer) (c : Console)
    → c.requests ≡ n
    → IsGuarded c
    → IsGuarded (take_answer n a c)
unfolding take_answer refreshed on_refused login
take_answer-IsGuarded zero a c q v = v
take_answer-IsGuarded (suc n) ok c q v = ground arith
take_answer-IsGuarded (suc n) unauthorized c q v = ground arith
take_answer-IsGuarded (suc n) failed c q v = ground arith

take_login-IsGuarded :
    (n : ℕ) (a : Answer) (c : Console) → IsGuarded c → IsGuarded (take_login n a c)
unfolding take_login
take_login-IsGuarded zero a c v = v
take_login-IsGuarded (suc n) ok c v =
    refresh-IsGuarded (record c { logins = n; authenticated = true }) v
take_login-IsGuarded (suc n) unauthorized c v =
    on_refused-IsGuarded unauthorized (record c { logins = n }) v
take_login-IsGuarded (suc n) failed c v = v

login-IsGuarded : (c : Console) → IsGuarded c → IsGuarded (login c)
unfolding login
login-IsGuarded c v = ground arith

take_logout-IsGuarded :
    (n : ℕ) (a : Answer) (c : Console) → IsGuarded c → IsGuarded (take_logout n a c)
unfolding take_logout
take_logout-IsGuarded zero a c v = v
take_logout-IsGuarded (suc n) ok c v =
    login-IsGuarded (record c { logouts = n; authenticated = false }) v
take_logout-IsGuarded (suc n) unauthorized c v =
    on_refused-IsGuarded unauthorized (record c { logouts = n }) v
take_logout-IsGuarded (suc n) failed c v = v

step-IsGuarded : (e : Event) (c : Console) → IsGuarded c → IsGuarded (step e c)
unfolding step tick
step-IsGuarded ticked c v = ground (arith, refresh-IsGuarded c v)
step-IsGuarded refresh_called c v = refresh-IsGuarded c v
step-IsGuarded (refresh_answered a) c v = take_answer-IsGuarded c.requests a c refl v
step-IsGuarded login_submitted c v = v
step-IsGuarded (login_answered a) c v = take_login-IsGuarded c.logins a c v
step-IsGuarded logout_clicked c v = v
step-IsGuarded (logout_answered a) c v = take_logout-IsGuarded c.logouts a c v
step-IsGuarded (refused a) c v = on_refused-IsGuarded a c v

run-IsGuarded : (es : List Event) (c : Console) → IsGuarded c → IsGuarded (run es c)
unfolding run
run-IsGuarded [] c v = v
run-IsGuarded (e ∷ es) c v = run-IsGuarded es (step e c) (step-IsGuarded e c v)

start-IsGuarded : (agent : Bool) → IsGuarded (start agent)
unfolding start loaded refresh
start-IsGuarded agent = refl

-- After any sequence of ticks, logins, logouts, failures and answers, in the browser and in the
-- desktop client: there is one request for the state without an answer while `refreshing` is set,
-- and none while it is not.
pub one_request :
    (agent : Bool) (es : List Event)
    → (run es (start agent)).requests ≡ (if (run es (start agent)).refreshing then 1 else 0)
one_request agent es = run-IsGuarded es (start agent) (start-IsGuarded agent)

-- A console in the browser that is logged out, with nothing on its way.
pub record IsLoggedOut (c : Console) : Type 0 where
  pub in_browser : c.agent ≡ false
  pub out : c.authenticated ≡ false
  pub shown : c.view ≡ login_form
  pub no_request : c.requests ≡ 0
  pub no_login : c.logins ≡ 0

-- What happens without the user's login or action.
abbrev pub is_passive : Event → Bool
is_passive ticked = true
is_passive refresh_called = false
is_passive (refresh_answered a) = true
is_passive login_submitted = false
is_passive (login_answered a) = true
is_passive logout_clicked = true
is_passive (logout_answered a) = true
is_passive (refused a) = true

on_refused-IsLoggedOut : (a : Answer) (c : Console) → IsLoggedOut c → IsLoggedOut (on_refused a c)
unfolding on_refused login
on_refused-IsLoggedOut a c v = ground arith

take_logout-IsLoggedOut :
    (n : ℕ) (a : Answer) (c : Console) → IsLoggedOut c → IsLoggedOut (take_logout n a c)
unfolding take_logout on_refused login
take_logout-IsLoggedOut n a c v = ground arith

none_in : (c : Console) → IsLoggedOut c → (c.agent || c.authenticated) ≢ true
none_in c v q = ground arith

suc_zero : (n : ℕ) → suc n ≢ 0
suc_zero n q = omega arith

none_taken :
    (n : ℕ) (a : Answer) (c : Console) → n ≡ 0 → IsLoggedOut c → IsLoggedOut (take_answer n a c)
unfolding take_answer
none_taken zero a c q v = v
none_taken (suc n) a c q v = elim (suc_zero n q) [ ]

no_login_taken :
    (n : ℕ) (a : Answer) (c : Console) → n ≡ 0 → IsLoggedOut c → IsLoggedOut (take_login n a c)
unfolding take_login
no_login_taken zero a c q v = v
no_login_taken (suc n) a c q v = elim (suc_zero n q) [ ]

step-IsLoggedOut :
    (e : Event) (c : Console) → is_passive e ≡ true → IsLoggedOut c → IsLoggedOut (step e c)
unfolding step tick
step-IsLoggedOut ticked c p v =
    if_both IsLoggedOut (c.agent || c.authenticated) (refresh c) c (λ q. elim (none_in c v q) [ ])
      (λ q. v)
step-IsLoggedOut refresh_called c p v = cc
step-IsLoggedOut (refresh_answered a) c p v = none_taken c.requests a c v.no_request v
step-IsLoggedOut login_submitted c p v = cc
step-IsLoggedOut (login_answered a) c p v = no_login_taken c.logins a c v.no_login v
step-IsLoggedOut logout_clicked c p v = record {
  in_browser = v.in_browser;
  out = v.out;
  shown = v.shown;
  no_request = v.no_request;
  no_login = v.no_login;
}
step-IsLoggedOut (logout_answered a) c p v = take_logout-IsLoggedOut c.logouts a c v
step-IsLoggedOut (refused a) c p v = on_refused-IsLoggedOut a c v

-- A console in the browser that shows the login form, logged out and with no request for the state
-- or for a login on its way, keeps doing so through any sequence of ticks, stray answers, logouts
-- and refused requests; so no request for the state goes out before the next login.
pub run-IsLoggedOut :
    (es : List Event) (c : Console)
    → IsLoggedOut c
    → All (λ e. is_passive e ≡ true) es
    → IsLoggedOut (run es c)
unfolding run
run-IsLoggedOut [] c v h = v
run-IsLoggedOut (e ∷ es) c v (p, h) = run-IsLoggedOut es (step e c) (step-IsLoggedOut e c p v) h
