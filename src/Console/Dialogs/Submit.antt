-- ===== src/Console/Dialogs/Submit.antt =====
-- The handler of `modal` in web/static/app.js: the one dialog element, whose forms are numbered in
-- the order in which they are shown, and the requests that their submits send.
pub mod Once
use net_conductor.Base.{ℕ, suc, Bool, true, false, ◌&&◌, not, ◌==◌, List, [], ◌∷◌, if◌then◌else◌}
use net_conductor.Base.Text.{Text}

-- `disabled` is the state of the submit button of the form `shown`, `error` the text of its
-- `.form-error`; `sent` are the forms whose request has no answer yet, `refreshing` those whose
-- handler waits for `refresh`. `saved` counts the messages that a form was saved.
pub record Forms : Type 0 where
  pub shown : ℕ
  pub is_open : Bool
  pub disabled : Bool
  pub error : Text
  pub sent : List ℕ
  pub refreshing : List ℕ
  pub saved : ℕ

abbrev pub start : Forms
start = record {
  shown = 0;
  is_open = false;
  disabled = false;
  error = [];
  sent = [];
  refreshing = [];
  saved = 0;
}

abbrev pub has : ℕ → List ℕ → Bool
has k [] = false
has k (j ∷ js) = if j == k then true else has k js

unfoldable pub without : ℕ → List ℕ → List ℕ
without k [] = []
without k (j ∷ js) = if j == k then js else j ∷ without k js

-- `modal(title, body, onSubmit)`
unfoldable pub open_modal : Forms → Forms
open_modal s = record s { shown = suc s.shown; is_open = true; disabled = false; error = [] }

-- `onsubmit` up to its request; a form whose button is disabled is not submitted.
unfoldable pub submit : Forms → Forms
submit s =
    if s.is_open && not s.disabled then record s { disabled = true; sent = s.shown ∷ s.sent } else s

-- `finally { btn.disabled = false }`, where `btn` is the button of form `k`.
unfoldable pub enable : ℕ → Forms → Forms
enable k s = if s.shown == k then record s { disabled = false } else s

-- The request of form `k` succeeds: `dlg.close()`, and the handler waits for `refresh`.
unfoldable pub succeed : ℕ → Forms → Forms
unfolding without
succeed k s =
    if has k s.sent
    then record s { is_open = false; sent = without k s.sent; refreshing = k ∷ s.refreshing }
    else s

-- The request of form `k` fails.
unfoldable pub fail : ℕ → Text → Forms → Forms
unfolding without enable
fail k e s = if has k s.sent then enable k (record s { error = e; sent = without k s.sent }) else s

-- `refresh` is over: `toast("已保存")`.
unfoldable pub finish : ℕ → Forms → Forms
unfolding without enable
finish k s =
    if has k s.refreshing
    then enable k (record s { refreshing = without k s.refreshing; saved = suc s.saved })
    else s

pub data Event : Type 0 where
  modal_called : Event
  submitted : Event
  succeeded : ℕ → Event
  failed : ℕ → Text → Event
  refreshed : ℕ → Event
  dismissed : Event

unfoldable pub step : Event → Forms → Forms
unfolding open_modal submit succeed fail finish
step modal_called s = open_modal s
step submitted s = submit s
step (succeeded k) s = succeed k s
step (failed k e) s = fail k e s
step (refreshed k) s = finish k s
step dismissed s = record s { is_open = false }

unfoldable pub run : List Event → Forms → Forms
unfolding step
run [] s = s
run (e ∷ es) s = run es (step e s)
