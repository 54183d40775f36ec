-- ===== src/Console/Policy/Saving.antt =====
-- Saving the dialog without a change.
use net_conductor.Base.{
  ℕ, zero, suc, ◌+◌, ◌≡◌, ◌≤◌, refl, ap, sym, drop-all, ◌∙◌, ◌&&◌, ◌⊎◌, not, List, [], ◌∷◌, ◌++◌,
  max, arith, if◌then◌else◌, length, drop, Bool-cases, inl, inr,
}
use net_conductor.Base.Text.{Text, codes}
use net_conductor.Base.Decimal.{decimal}
use net_conductor.Console.State.{Device, Policy, find_policy, is_blank}
use net_conductor.Console.Policy.{
  exit_options, has, first, selected, exit_at, Form, exit_rows, failure_options, or_default,
  policy_form, chosen_exits, value_of, policy_body, save_unchanged,
}

-- The exits among `es` that the options `os` offer.
abbrev pub offered : List Text → List Text → List Text
offered os [] = []
offered os (e ∷ es) = if not (is_blank e) && has e os then e ∷ offered os es else offered os es

-- A row adds its exit where that is offered.
chosen-row :
    (i : ℕ) (e : Text) (os : List Text) (v : Form)
    → first os ≡ []
    → chosen_exits ((codes "exit" ++ decimal i, selected e os) ∷ v)
      ≡ (if not (is_blank e) && has e os then e ∷ chosen_exits v else chosen_exits v)
unfolding chosen_exits selected
chosen-row i e os v f = elim (Bool-cases (has e os)) [
  | inl q ↦ rw q (elim (Bool-cases (is_blank e)) [ inl b ↦ rw b refl | inr b ↦ rw b refl ])
  | inr q ↦ rw (q, f) (elim (Bool-cases (is_blank e)) [ inl b ↦ rw b refl | inr b ↦ rw b refl ])
]

-- Row `i` shows the exit that stands there, and nothing behind the last one.
drop-at :
    (i : ℕ) (es : List Text)
    → ((drop i es ≡ []) × (drop (suc i) es ≡ []) × (exit_at i es ≡ []))
      ⊎ (drop i es ≡ exit_at i es ∷ drop (suc i) es)
drop-at zero [] = inl (refl, refl, refl)
drop-at zero (e ∷ es) = inr refl
drop-at (suc i) [] = inl (refl, refl, refl)
drop-at (suc i) (e ∷ es) = drop-at i es

chosen-rows :
    (n i : ℕ) (es os : List Text) (v : Form)
    → first os ≡ []
    → chosen_exits v ≡ []
    → length es ≤ i + n
    → chosen_exits (exit_rows n i es os ++ v) ≡ offered os (drop i es)
unfolding exit_rows
chosen-rows zero i es os v f h k = h ∙ ap (offered os) (sym (drop-all i es (omega arith)))
chosen-rows (suc n) i es os v f h k =
    chosen-row i (exit_at i es) os (exit_rows n (suc i) es os ++ v) f ∙ elim (drop-at i es) [
      | inl (none_here, none_next, blank) ↦
          let rest = chosen-rows n (suc i) es os v f h (omega arith) in
          rw (blank, none_here) (rest ∙ ap (offered os) none_next)
      | inr here ↦
          let rest = chosen-rows n (suc i) es os v f h (omega arith) in rw (here, rest) refl
    ]

value-rows :
    (n i : ℕ) (es os : List Text) (x : Text)
    → value_of (codes "onFailure") (exit_rows n i es os ++ (codes "onFailure", x) ∷ []) ≡ x
unfolding exit_rows value_of
value-rows zero i es os x = refl
value-rows (suc n) i es os x = value-rows n (suc i) es os x

first-options : (ds : List Device) → first (exit_options ds) ≡ []
unfolding exit_options
first-options ds = refl

chosen-failure : (x : Text) → chosen_exits ((codes "onFailure", x) ∷ []) ≡ []
unfolding chosen_exits
chosen-failure x = refl

selected-failure :
    (f : Text) → selected f failure_options ≡ (if has f failure_options then f else codes "block")
unfolding selected
selected-failure f = refl

abbrev pub saved_policy : Text → List Text → Text → Policy
saved_policy id es f = record { source = id; exits = es; on_failure = f; active = [] }

same_policy :
    (id : Text) {es es' : List Text} {f f' : Text}
    → es ≡ es'
    → f ≡ f'
    → saved_policy id es f ≡ saved_policy id es' f'
same_policy id p q = rw (p, q) refl

-- Opening the dialog for a device and saving it without a change sends a policy for that device
-- with the exits of its first policy (or none) that are not empty and still among the options, in
-- their order, and with its failure rule if that is one of the two rules, else "block".
pub policy-saved :
    (id : Text) (ps : List Policy) (ds : List Device)
    → let p = or_default id (find_policy id ps) in
      save_unchanged id ps ds
      ≡ saved_policy id
          (offered (exit_options ds) p.exits)
          (if has p.on_failure failure_options then p.on_failure else codes "block")
unfolding save_unchanged policy_body policy_form
policy-saved id ps ds =
    same_policy id
      (chosen-rows (max 3 (length es + 1)) 0 es (exit_options ds) _ (first-options ds)
        (chosen-failure (selected p.on_failure failure_options)) (omega arith))
      (value-rows (max 3 (length es + 1)) 0 es (exit_options ds)
          (selected p.on_failure failure_options)
        ∙ selected-failure p.on_failure)
  where
    p : Policy
    p = or_default id (find_policy id ps)

    es : List Text
    es = p.exits
