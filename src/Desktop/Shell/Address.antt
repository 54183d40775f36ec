-- ===== src/Desktop/Shell/Address.antt =====
-- The address of the local agent in desktop/main.cjs, and who may call for the system proxy.
use mathlib.Core.Path.{subst}
use net_conductor.Base.{
  ◌≡◌, ◌≢◌, ◌⊎◌, inl, inr, refl, sym, ap, ◌∙◌, Bool, true, false, ◌&&◌, ◌||◌, not, Option, none,
  some, List, [], ◌∷◌, ◌++◌, ◌==◌, ==_iff, arith, if◌then◌else◌, if_both, Bool-cases,
}
use net_conductor.Base.Text.{Text, codes, text_eq, eq_of_text_eq}
use net_conductor.Desktop.Shell.{
  includes, actions, is_denied, is_number, is_digits, matches, is_local, Shell, launched, show,
  before_quit, ready, on_failed_load, on_finished_load, on_reload, on_closed, on_close, Event,
  opened_again, failed_load, finished_load, reload_due, close_clicked, quit, step, run,
}

-- An address of the machine itself with a port of decimal digits.
abbrev pub IsOwn : Text → Type 0
IsOwn t = (d : Text) × (is_number d ≡ true) × (t ≡ codes "http://127.0.0.1:" ++ d)

matches-number :
    (p s : Text) → matches p s ≡ true → (d : Text) × (is_number d ≡ true) × (s ≡ p ++ d)
unfolding matches
matches-number [] s h = (s, h, refl)
matches-number (p ∷ ps) [] h = cc
matches-number (p ∷ ps) (c ∷ s) h =
    let same = both (p == c) (matches ps s) h in
    let rest = matches-number ps s same.1 in
    (rest.0, rest.1, (ap (λ x. x ∷ s) (sym ((==_iff p c).0 same.0))) ∙ ap (λ r. p ∷ r) rest.2)
  where
    both : (a b : Bool) → (a && b) ≡ true → (a ≡ true) × (b ≡ true)
    both a b h = ground arith

is_local-IsOwn : (l : Text) → is_local l ≡ true → IsOwn (codes "http://" ++ l)
unfolding is_local
is_local-IsOwn l h =
    let m = matches-number (codes "127.0.0.1:") l h in
    (m.0, m.1, ap (λ x. codes "http://" ++ x) m.2)

launched-IsOwn : IsOwn launched.origin
unfolding is_number is_digits
launched-IsOwn = (codes "18765", refl, refl)

step-origin : (e : Event) (s : Shell) → (step e s).origin ≡ s.origin
unfolding step show before_quit on_failed_load on_finished_load on_reload on_close on_closed
step-origin opened_again s = ground arith
step-origin (failed_load a m) s = ground arith
step-origin finished_load s = ground arith
step-origin reload_due s = ground arith
step-origin close_clicked s = ground arith
step-origin quit s = refl

run-origin : (es : List Event) (s : Shell) → (run es s).origin ≡ s.origin
unfolding run
run-origin [] s = refl
run-origin (e ∷ es) s = run-origin es (step e s) ∙ step-origin e s

ready-IsOwn : (c : Option Text) (hidden : Bool) → IsOwn (ready c hidden launched).origin
unfolding ready show before_quit
ready-IsOwn none hidden = launched-IsOwn
ready-IsOwn (some l) hidden =
    let t : Shell = record launched { origin = codes "http://" ++ l; desktop = true } in
    if_both (λ (s : Shell). IsOwn s.origin) (is_local l) (if hidden then t else show t)
      (before_quit launched)
      (λ q.
        if_both (λ (s : Shell). IsOwn s.origin) hidden t (show t) (λ r. is_local-IsOwn l q)
          (λ r. is_local-IsOwn l q))
      (λ q. launched-IsOwn)

-- An allowed action is one of the three.
includes-member :
    (a : Text)
    → includes a actions ≡ true
    → (a ≡ codes "enable") ⊎ ((a ≡ codes "restore") ⊎ (a ≡ codes "status"))
unfolding includes
includes-member a h = elim (Bool-cases (text_eq (codes "enable") a)) [
  | inl q ↦ inl (sym (eq_of_text_eq (codes "enable") a q))
  | inr not_first ↦ elim (Bool-cases (text_eq (codes "restore") a)) [
    | inl q ↦ inr (inl (sym (eq_of_text_eq (codes "restore") a q)))
    | inr not_second ↦ elim (Bool-cases (text_eq (codes "status") a)) [
      | inl q ↦ inr (inr (sym (eq_of_text_eq (codes "status") a q)))
      | inr not_third ↦ elim (false_true (sym (rw (not_first, not_second, not_third) refl) ∙ h)) [ ]
    ]
  ]
]
  where
    false_true : false ≢ true
    false_true q = cc

-- The page of the client at such an address.
abbrev pub IsOwnPage : Text → Type 0
IsOwnPage url =
    (d : Text) × (is_number d ≡ true)
    × (url ≡ (codes "http://127.0.0.1:" ++ d) ++ codes "/#desktop")

-- After the start, with any configuration and in either mode, and any sequence of events: a call
-- for the system proxy that is not denied comes from a frame whose address is
-- http://127.0.0.1:PORT/#desktop with a port of one or more decimal digits, and its action is
-- "enable", "restore" or "status".
pub allowed-own :
    (c : Option Text) (hidden : Bool) (es : List Event) (url : Option Text) (action : Text)
    → is_denied (run es (ready c hidden launched)).origin url action ≡ false
    → (u : Text) × (url ≡ some u)
      × IsOwnPage u
      × ((action ≡ codes "enable") ⊎ ((action ≡ codes "restore") ⊎ (action ≡ codes "status")))
unfolding is_denied
allowed-own c hidden es none action h = cc
allowed-own c hidden es (some u) action h =
    let s = run es (ready c hidden launched) in
    let both = granted (text_eq u (s.origin ++ codes "/#desktop")) (includes action actions) h in
    let own : IsOwn s.origin =
      subst IsOwn (sym (run-origin es (ready c hidden launched))) (ready-IsOwn c hidden) in
    let same = eq_of_text_eq u (s.origin ++ codes "/#desktop") both.0 in
    (
      u,
      refl,
      (own.0, own.1, same ∙ ap (λ o. o ++ codes "/#desktop") own.2),
      includes-member action both.1,
    )
  where
    granted : (a b : Bool) → (not a || not b) ≡ false → (a ≡ true) × (b ≡ true)
    granted a b h = ground arith
