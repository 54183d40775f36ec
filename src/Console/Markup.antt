-- ===== src/Console/Markup.antt =====
-- `esc` of web/static/app.js, which is also `escape` of web/static/remote-ui.js: a text made safe
-- for markup.
pub mod Reading
use net_conductor.Base.{ℕ, [], ◌∷◌, ◌++◌, ◌==◌, if◌then◌else◌}
use net_conductor.Base.Text.{Text, codes}

-- The replacement of a character of `[&<>"']`, and any other character as it is.
unfoldable pub replacement : ℕ → Text
replacement c =
    if c == b'&'
    then codes "&amp;"
    else if c == b'<'
    then codes "&lt;"
    else if c == b'>'
    then codes "&gt;"
    else if c == b'"'
    then codes "&quot;"
    else if c == b'\''
    then codes "&#39;"
    else c ∷ []

unfoldable pub esc : Text → Text
unfolding replacement
esc [] = []
esc (c ∷ s) = replacement c ++ esc s
