-- ===== src/Remote/Files/Manager/Transfers.antt =====
-- One transfer at a time.
use net_conductor.Base.{
  ℕ, ◌+◌, ◌≡◌, ◌≢◌, refl, sym, Bool-cases, ◌∙◌, Bool, true, false, ◌||◌, ◌++◌, Option, none, some,
  List, [], ◌∷◌, ◌==◌, if◌then◌else◌, if_both, arith, get_elem?, Option-cases, inl, inr,
}
use net_conductor.Base.Text.{Text, codes}
use net_conductor.Remote.Protocol.{Entry, Request, rename, delete, mkdir}
use net_conductor.Remote.Files.Paths.{join, is_refused}
use net_conductor.Remote.Files.Manager.{
  Task, loading_list, changing, downloading, uploading, reloading, Manager, report, load, start,
  Button, entry, rename_to, delete_if, change, begin_download, is_blank, or_empty, on_button,
  on_click, on_go, on_up, on_mkdir, on_upload, rank, without, Problem, loaded, settle_busy,
  on_listed, on_reloaded, on_changed, on_downloaded, on_uploaded, Event, clicked, go_clicked,
  up_clicked, mkdir_clicked, file_chosen, listed, reloaded, changed, downloaded, uploaded, left,
  resume, step, run,
}

abbrev transfer : Task → ℕ
transfer loading_list = 0
transfer changing = 0
transfer downloading = 1
transfer uploading = 1
transfer reloading = 1

-- How many downloads and uploads are under way.
abbrev pub transfers : List Task → ℕ
transfers [] = 0
transfers (t ∷ ts) = transfer t + transfers ts

abbrev pub IsSingle : Manager → Type 0
IsSingle m = transfers m.tasks ≡ (if m.busy then 1 else 0)

-- What is told by `busy` when one handler more or less runs.
abbrev pub Counts : ℕ → Manager → Type 0
Counts n m = transfers m.tasks + n ≡ (if m.busy then 1 else 0)

transfer-rank : (t u : Task) → (rank t == rank u) ≡ true → transfer t ≡ transfer u
transfer-rank t u q = ground arith

without-transfers :
    (t : Task) (us vs : List Task)
    → without t us ≡ some vs
    → transfers us ≡ transfer t + transfers vs
unfolding without
without-transfers t [] vs q = cc
without-transfers t (u ∷ us) vs q = elim (Bool-cases (rank t == rank u)) [
  | inl same ↦ ground (arith, transfer-rank t u same, some_inj us vs (sym (rw same refl) ∙ q))
  | inr other ↦ elim (Option-cases (without t us)) [
    | inl stop ↦ elim (none_some (u ∷ us) vs (sym (rw (other, stop) refl) ∙ q)) [ ]
    | inr (ws, go) ↦
        ground (
          arith,
          without-transfers t us ws go,
          some_inj (u ∷ ws) vs (sym (rw (other, go) refl) ∙ q),
        )
  ]
]
  where
    some_inj : (xs ys : List Task) → some xs ≡ some ys → transfers xs ≡ transfers ys
    some_inj xs ys e = cc

    none_some : (us ys : List Task) → Option.none ≢ some ys
    none_some us ys e = cc

resume-IsSingle :
    (t : Task) (k : Manager → Manager) (m : Manager)
    → ((n : Manager) → Counts (transfer t) n → IsSingle (k n))
    → IsSingle m
    → IsSingle (resume t k m)
resume-IsSingle t k m f v = elim (Option-cases (without t m.tasks)) [
  | inl stop ↦ rw (stop, resume) v
  | inr (ts, go) ↦
      rw (go, resume)
        (f (record m { tasks = ts }) (omega (arith, without-transfers t m.tasks ts go, v)))
]

load-IsSingle : (p : Text) (m : Manager) → IsSingle m → IsSingle (load loading_list p m)
unfolding load
load-IsSingle p m v = omega (arith, v)

report-IsSingle : (e : Text) (m : Manager) → IsSingle m → IsSingle (report e m)
unfolding report
report-IsSingle e m v = ground arith

begin_download-IsSingle :
    (e : Entry) (m : Manager) → m.busy ≡ false → IsSingle m → IsSingle (begin_download e m)
unfolding begin_download report
begin_download-IsSingle e m q v = ground arith

on_upload-IsSingle :
    (n : Text) (size : ℕ) (m : Manager) → IsSingle m → IsSingle (on_upload n size m)
unfolding on_upload report
on_upload-IsSingle n size m v = ground arith

change-IsSingle : (r : Request) (m : Manager) → IsSingle m → IsSingle (change r m)
change-IsSingle r m v = omega (arith, v)

on_button-IsSingle :
    (b : Button) (e : Entry) (m : Manager)
    → m.busy ≡ false
    → IsSingle m
    → IsSingle (on_button b e m)
unfolding on_button
on_button-IsSingle entry e m q v =
    if_both IsSingle e.directory (load loading_list (join m.current e.name) m) _
      (λ r. load-IsSingle (join m.current e.name) m v) (λ r. begin_download-IsSingle e m q v)
on_button-IsSingle (rename_to n) e m q v =
    let to : Request = rename (join m.current e.name) (join m.current (or_empty n)) in
    if_both IsSingle (is_blank (or_empty n)) m _ (λ r. v)
      (λ r.
        if_both IsSingle (is_refused (or_empty n)) (report _ m) (change to m)
          (λ z. report-IsSingle _ m v) (λ z. change-IsSingle to m v))
on_button-IsSingle (delete_if true) e m q v = change-IsSingle (delete (join m.current e.name)) m v
on_button-IsSingle (delete_if false) e m q v = v

not_busy : (b l : Bool) → (b || l) ≡ false → b ≡ false
not_busy b l h = ground arith

on_click-IsSingle : (b : Button) (i : ℕ) (m : Manager) → IsSingle m → IsSingle (on_click b i m)
unfolding on_click
on_click-IsSingle b i m v =
    if_both IsSingle (m.busy || m.loading) m _ (λ r. v)
      (λ r. elim (Option-cases (get_elem? m.entries i)) [
        | inl e ↦ rw e v
        | inr (x, e) ↦ rw e (on_button-IsSingle b x m (not_busy m.busy m.loading r) v)
      ])

on_go-IsSingle : (p : Text) (m : Manager) → IsSingle m → IsSingle (on_go p m)
unfolding on_go load
on_go-IsSingle p m v = ground arith

on_up-IsSingle : (m : Manager) → IsSingle m → IsSingle (on_up m)
unfolding on_up load
on_up-IsSingle m v = ground arith

on_mkdir-IsSingle : (n : Option Text) (m : Manager) → IsSingle m → IsSingle (on_mkdir n m)
unfolding on_mkdir
on_mkdir-IsSingle n m v =
    let new : Request = mkdir (join m.current (or_empty n)) in
    if_both IsSingle (m.busy || m.loading) m _ (λ r. v)
      (λ r.
        if_both IsSingle (is_blank (or_empty n)) m _ (λ r. v)
          (λ r.
            if_both IsSingle (is_refused (or_empty n)) (report _ m) (change new m)
              (λ z. report-IsSingle _ m v) (λ z. change-IsSingle new m v)))

loaded-IsSingle :
    (l : Option (Text × List Entry)) (m : Manager) → IsSingle m → IsSingle (loaded l m)
loaded-IsSingle none m v = v
loaded-IsSingle (some (p, es)) m v = v

on_listed-IsSingle :
    (l : Option (Text × List Entry)) (e : Problem) (m : Manager)
    → Counts 0 m
    → IsSingle (on_listed l e m)
unfolding on_listed
on_listed-IsSingle l none m v = loaded-IsSingle l m (omega (arith, v))
on_listed-IsSingle l (some e) m v =
    report-IsSingle (e ++ []) (loaded l m) (loaded-IsSingle l m (omega (arith, v)))

-- A transfer that ends clears the flag.
settle-IsSingle : (m : Manager) → Counts 1 m → IsSingle (settle_busy m)
settle-IsSingle m v = ground arith

report-Counts : (e : Text) (m : Manager) → Counts 1 m → Counts 1 (report e m)
unfolding report
report-Counts e m v = ground arith

loaded-Counts : (l : Option (Text × List Entry)) (m : Manager) → Counts 1 m → Counts 1 (loaded l m)
loaded-Counts none m v = v
loaded-Counts (some (p, es)) m v = v

on_reloaded-IsSingle :
    (l : Option (Text × List Entry)) (e : Problem) (m : Manager)
    → Counts 1 m
    → IsSingle (on_reloaded l e m)
unfolding on_reloaded
on_reloaded-IsSingle l none m v =
    settle-IsSingle (record (loaded l m) { error = codes "上传完成" }) (loaded-Counts l m v)
on_reloaded-IsSingle l (some e) m v =
    settle-IsSingle (report _ (loaded l m)) (report-Counts _ (loaded l m) (loaded-Counts l m v))

on_changed-IsSingle : (e : Problem) (m : Manager) → Counts 0 m → IsSingle (on_changed e m)
unfolding on_changed
on_changed-IsSingle none m v = load-IsSingle m.current m (omega (arith, v))
on_changed-IsSingle (some e) m v = report-IsSingle e m (omega (arith, v))

on_downloaded-IsSingle : (e : Problem) (m : Manager) → Counts 1 m → IsSingle (on_downloaded e m)
unfolding on_downloaded
on_downloaded-IsSingle none m v = settle-IsSingle m v
on_downloaded-IsSingle (some e) m v =
    settle-IsSingle (report (e ++ []) m) (report-Counts (e ++ []) m v)

on_uploaded-IsSingle : (e : Problem) (m : Manager) → Counts 1 m → IsSingle (on_uploaded e m)
unfolding on_uploaded load
on_uploaded-IsSingle none m v =
    if_both IsSingle m.active (load reloading m.current m) (settle_busy m) (λ r. omega (arith, v))
      (λ r. settle-IsSingle m v)
on_uploaded-IsSingle (some e) m v = settle-IsSingle (report _ m) (report-Counts _ m v)

step-IsSingle : (e : Event) (m : Manager) → IsSingle m → IsSingle (step e m)
unfolding step
step-IsSingle (clicked b i) m v = on_click-IsSingle b i m v
step-IsSingle (go_clicked p) m v = on_go-IsSingle p m v
step-IsSingle up_clicked m v = on_up-IsSingle m v
step-IsSingle (mkdir_clicked n) m v = on_mkdir-IsSingle n m v
step-IsSingle (file_chosen n size) m v = on_upload-IsSingle n size m v
step-IsSingle (listed l e) m v =
    resume-IsSingle loading_list (on_listed l e) m (on_listed-IsSingle l e) v
step-IsSingle (reloaded l e) m v =
    resume-IsSingle reloading (on_reloaded l e) m (on_reloaded-IsSingle l e) v
step-IsSingle (changed e) m v = resume-IsSingle changing (on_changed e) m (on_changed-IsSingle e) v
step-IsSingle (downloaded e) m v =
    resume-IsSingle downloading (on_downloaded e) m (on_downloaded-IsSingle e) v
step-IsSingle (uploaded e) m v =
    resume-IsSingle uploading (on_uploaded e) m (on_uploaded-IsSingle e) v
step-IsSingle left m v = v

run-IsSingle : (es : List Event) (m : Manager) → IsSingle m → IsSingle (run es m)
unfolding run
run-IsSingle [] m v = v
run-IsSingle (e ∷ es) m v = run-IsSingle es (step e m) (step-IsSingle e m v)

-- After any sequence of clicks, answers and failures, in any order: one download or upload is under
-- way while `busy` is set, and none while it is not; so there are never two.
pub one_transfer :
    (es : List Event) → transfers (run es start).tasks ≡ (if (run es start).busy then 1 else 0)
unfolding start load
one_transfer es = run-IsSingle es start refl

-- The handlers of the user's clicks.
abbrev pub is_click : Event → Bool
is_click (clicked b i) = true
is_click (go_clicked p) = true
is_click up_clicked = true
is_click (mkdir_clicked n) = true
is_click (file_chosen n size) = true
is_click (listed l e) = false
is_click (reloaded l e) = false
is_click (changed e) = false
is_click (downloaded e) = false
is_click (uploaded e) = false
is_click left = false
