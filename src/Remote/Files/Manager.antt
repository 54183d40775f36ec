-- ===== src/Remote/Files/Manager.antt =====
-- The file manager of `openRemote`, web/static/remote-ui.js: the listing, the buttons, and the flags
-- `busy` and `loading` that keep transfers and listings apart.
pub mod Transfers
use net_conductor.Base.{
  ℕ, zero, suc, ◌+◌, Bool, true, false, ◌||◌, ◌&&◌, ◌++◌, not, Option, none, some, List, [], ◌∷◌,
  ltb, ◌==◌, if◌then◌else◌, get_elem?,
}
use net_conductor.Base.Text.{Text, codes}
use net_conductor.Remote.Protocol.{Entry, Request, list, rename, delete, mkdir, create, read}
use net_conductor.Remote.Files.Paths.{join, parent, is_refused}
use net_conductor.Remote.Files.Download.{max_file, over_single}

-- What runs: a listing; a rename, a deletion or a new directory, after which the directory is read
-- again; a download; an upload; and the listing at the end of an upload.
pub data Task : Type 0 where
  loading_list : Task
  changing : Task
  downloading : Task
  uploading : Task
  reloading : Task

-- `current` is the directory shown, with its `entries`; `error` what `report` shows;
-- `tasks` are the handlers that await something, newest first; `calls` the calls made, newest first.
pub record Manager : Type 0 where
  pub active : Bool
  pub current : Text
  pub entries : List Entry
  pub busy : Bool
  pub loading : Bool
  pub upload_disabled : Bool
  pub error : Text
  pub tasks : List Task
  pub calls : List Request

unfoldable pub report : Text → Manager → Manager
report e m = if m.active then record m { error = e } else m

-- `load(p)` up to its call, run by the handler that is then `task`.
unfoldable pub load : Task → Text → Manager → Manager
load task p m = record m {
  loading = true;
  upload_disabled = true;
  tasks = task ∷ m.tasks;
  calls = list p ∷ m.calls;
}

abbrev pub fresh : Manager
fresh = record {
  active = true;
  current = [];
  entries = [];
  busy = false;
  loading = false;
  upload_disabled = false;
  error = [];
  tasks = [];
  calls = [];
}

-- The view calls `load()` when it opens.
unfoldable pub start : Manager
unfolding load
start = load loading_list [] fresh

-- The buttons of a row; a prompt or a confirmation that was refused is `none` or `false`.
pub data Button : Type 0 where
  entry : Button
  rename_to : Option Text → Button
  delete_if : Bool → Button

abbrev pub bad_name : Text
bad_name = codes "请输入单个文件名"

abbrev pub bad_directory : Text
bad_directory = codes "请输入单个目录名"

abbrev pub change : Request → Manager → Manager
change r m = record m { tasks = changing ∷ m.tasks; calls = r ∷ m.calls }

-- `download(e)` up to its first call.
unfoldable pub begin_download : Entry → Manager → Manager
unfolding report
begin_download e m = if ltb max_file e.size then report over_single m else record m {
  busy = true;
  tasks = downloading ∷ m.tasks;
  calls = read (join m.current e.name) 0 ∷ m.calls;
}

abbrev pub is_blank : Text → Bool
is_blank [] = true
is_blank (c ∷ t) = false

abbrev pub or_empty : Option Text → Text
or_empty none = []
or_empty (some t) = t

unfoldable pub on_button : Button → Entry → Manager → Manager
unfolding load begin_download report
on_button entry e m =
    if e.directory then load loading_list (join m.current e.name) m else begin_download e m
on_button (rename_to n) e m =
    if is_blank (or_empty n)
    then m
    else if is_refused (or_empty n)
    then report bad_name m
    else change (rename (join m.current e.name) (join m.current (or_empty n))) m
on_button (delete_if true) e m = change (delete (join m.current e.name)) m
on_button (delete_if false) e m = m

-- `table.onclick` on a button of the row `i`
unfoldable pub on_click : Button → ℕ → Manager → Manager
unfolding on_button
on_click b i m =
    if m.busy || m.loading
    then m
    else elim (get_elem? m.entries i) [ none ↦ m | some e ↦ on_button b e m ]

unfoldable pub on_go : Text → Manager → Manager
unfolding load
on_go p m = if not m.busy && not m.loading then load loading_list p m else m

unfoldable pub on_up : Manager → Manager
unfolding load
on_up m = if not m.busy && not m.loading then load loading_list (parent m.current) m else m

unfoldable pub on_mkdir : Option Text → Manager → Manager
unfolding report
on_mkdir n m =
    if m.busy || m.loading
    then m
    else if is_blank (or_empty n)
    then m
    else if is_refused (or_empty n)
    then report bad_directory m
    else change (mkdir (join m.current (or_empty n))) m

abbrev pub hint : Text
hint = codes "；如传输中断，请检查并删除未完成文件后重试"

-- The upload's handler up to its first call, for a file with a name and a size.
unfoldable pub on_upload : Text → ℕ → Manager → Manager
unfolding report
on_upload name size m =
    if m.busy || m.loading
    then m
    else if ltb max_file size
    then report (over_single ++ hint) m
    else record m {
      busy = true;
      tasks = uploading ∷ m.tasks;
      calls = create (join m.current name) ∷ m.calls;
    }

abbrev pub rank : Task → ℕ
rank loading_list = 0
rank changing = 1
rank downloading = 2
rank uploading = 3
rank reloading = 4

-- The handlers without one that runs `t`.
unfoldable pub without : Task → List Task → Option (List Task)
without t [] = none
without t (u ∷ us) =
    if rank t == rank u
    then some us
    else elim (without t us) [ none ↦ none | some vs ↦ some (u ∷ vs) ]

-- How a call, or a whole transfer, came out: none, or the message of an exception.
abbrev pub Problem : Type 0
Problem = Option Text

-- The end of `load`, with what the listing shows.
abbrev pub loaded : Option (Text × List Entry) → Manager → Manager
loaded none m = record m { loading = false; upload_disabled = false }
loaded (some (p, es)) m = record m {
  current = p;
  entries = es;
  loading = false;
  upload_disabled = false;
}

abbrev pub report_if : Problem → Text → Manager → Manager
report_if none tail m = m
report_if (some e) tail m = report (e ++ tail) m

abbrev pub settle_busy : Manager → Manager
settle_busy m = record m { busy = false }

-- A listing comes, or fails with a message.
unfoldable pub on_listed : Option (Text × List Entry) → Problem → Manager → Manager
unfolding report
on_listed l e m = report_if e [] (loaded l m)

-- The listing at the end of an upload; on success it shows that the upload is complete.
unfoldable pub on_reloaded : Option (Text × List Entry) → Problem → Manager → Manager
unfolding report
on_reloaded l none m = settle_busy (record (loaded l m) { error = codes "上传完成" })
on_reloaded l (some e) m = settle_busy (report (e ++ hint) (loaded l m))

-- A rename, a deletion or a new directory is done or failed.
unfoldable pub on_changed : Problem → Manager → Manager
unfolding load report
on_changed none m = load loading_list m.current m
on_changed (some e) m = report e m

unfoldable pub on_downloaded : Problem → Manager → Manager
unfolding report
on_downloaded e m = settle_busy (report_if e [] m)

-- The pieces are written, or an exception came; with the dialog open, the directory is read again.
unfoldable pub on_uploaded : Problem → Manager → Manager
unfolding load report
on_uploaded none m = if m.active then load reloading m.current m else settle_busy m
on_uploaded (some e) m = settle_busy (report (e ++ hint) m)

-- What the user does, the answers to the handlers that await something, and the end of the dialog.
pub data Event : Type 0 where
  clicked : Button → ℕ → Event
  go_clicked : Text → Event
  up_clicked : Event
  mkdir_clicked : Option Text → Event
  file_chosen : Text → ℕ → Event
  listed : Option (Text × List Entry) → Problem → Event
  reloaded : Option (Text × List Entry) → Problem → Event
  changed : Problem → Event
  downloaded : Problem → Event
  uploaded : Problem → Event
  left : Event

abbrev pub resume : Task → (Manager → Manager) → Manager → Manager
resume t k m = elim (without t m.tasks) [ none ↦ m | some ts ↦ k (record m { tasks = ts }) ]

unfoldable pub step : Event → Manager → Manager
unfolding without on_click on_go on_up on_mkdir on_upload on_listed on_reloaded on_changed
    on_downloaded on_uploaded
step (clicked b i) m = on_click b i m
step (go_clicked p) m = on_go p m
step up_clicked m = on_up m
step (mkdir_clicked n) m = on_mkdir n m
step (file_chosen n size) m = on_upload n size m
step (listed l e) m = resume loading_list (on_listed l e) m
step (reloaded l e) m = resume reloading (on_reloaded l e) m
step (changed e) m = resume changing (on_changed e) m
step (downloaded e) m = resume downloading (on_downloaded e) m
step (uploaded e) m = resume uploading (on_uploaded e) m
step left m = record m { active = false }

unfoldable pub run : List Event → Manager → Manager
unfolding step
run [] m = m
run (e ∷ es) m = run es (step e m)
