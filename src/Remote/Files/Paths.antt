-- ===== src/Remote/Files/Paths.antt =====
-- Paths and names of the file manager: `join`, the button for the directory above, and the check
-- of a new name (web/static/remote-ui.js). A path is a text with "/" between its names.
pub mod Laws
use net_conductor.Base.{ℕ, Bool, true, false, ◌||◌, ◌&&◌, not, [], ◌∷◌, ◌++◌, ◌==◌, if◌then◌else◌}
use net_conductor.Base.Text.{Text, text_eq, codes}

abbrev pub slash : ℕ
slash = b'/'

abbrev pub backslash : ℕ
backslash = b'\\'

-- `s.replace(/\/$/, "")`
unfoldable pub strip_slash : Text → Text
strip_slash [] = []
strip_slash (c ∷ []) = if c == slash then [] else c ∷ []
strip_slash (c ∷ d ∷ s) = c ∷ strip_slash (d ∷ s)

-- `const join = (n) => current.replace(/\/$/, "") + "/" + n`
unfoldable pub join : Text → Text → Text
join current n = strip_slash current ++ (slash ∷ n)

-- Whether a text is `[^/]+\/?` from end to end, the first name being under way in `more_than_none`.
unfoldable pub is_last_name : Bool → Text → Bool
is_last_name begun [] = begun
is_last_name begun (c ∷ []) = if c == slash then begun else true
is_last_name begun (c ∷ d ∷ s) = not (c == slash) && is_last_name true (d ∷ s)

-- `s.replace(/\/[^/]+\/?$/, "")`: the leftmost match is removed.
unfoldable pub cut_last : Text → Text
cut_last [] = []
cut_last (c ∷ s) = if c == slash && is_last_name false s then [] else c ∷ cut_last s

abbrev pub or_root : Text → Text
or_root [] = slash ∷ []
or_root (c ∷ s) = c ∷ s

-- `current.replace(/\/[^/]+\/?$/, "") || "/"`
unfoldable pub parent : Text → Text
unfolding cut_last
parent current = or_root (cut_last current)

-- `/[\\/]/.test(n)`
unfoldable pub has_separator : Text → Bool
has_separator [] = false
has_separator (c ∷ s) = (c == slash || c == backslash) || has_separator s

-- `/[\\/]/.test(n) || n === "." || n === ".."`
unfoldable pub is_refused : Text → Bool
unfolding has_separator
is_refused n = has_separator n || (text_eq n (codes ".") || text_eq n (codes ".."))
