-- ===== src/Remote/Files/Listing.antt =====
-- How `load` in web/static/remote-ui.js orders and shows the entries of a directory.
pub mod Sorted
pub mod Shown
use net_conductor.Base.{ℕ, suc, Bool, true, false, List, [], ◌∷◌, if◌then◌else◌}
use net_conductor.Base.Text.{Text, codes}
use net_conductor.Remote.Protocol.{Entry}
use net_conductor.Console.Template.{
  Piece, Template, Rows, raw, escaped, bare, number, choice, each, end, ◌⨾◌, no_rows, row, lit,
  literal,
}

abbrev pub same_kind : Bool → Bool → Bool
same_kind true b = b
same_kind false true = false
same_kind false false = true

-- `Number(b.directory) - Number(a.directory) || a.name.localeCompare(b.name)` is at most 0, where
-- `le` tells whether `localeCompare` is.
abbrev pub comes_first : (Text → Text → Bool) → Entry → Entry → Bool
comes_first le a b = if same_kind a.directory b.directory then le a.name b.name else a.directory

unfoldable pub insert : (Text → Text → Bool) → Entry → List Entry → List Entry
insert le x [] = x ∷ []
insert le x (y ∷ ys) =
    let rest = insert le x ys in if comes_first le x y then x ∷ y ∷ ys else y ∷ rest

-- `entries.sort(…)`, which keeps the order of equal entries.
unfoldable pub sort : (Text → Text → Bool) → List Entry → List Entry
unfolding insert
sort le [] = []
sort le (x ∷ xs) = insert le x (sort le xs)

-- The pictures of a folder and of a page, as two code units each.
abbrev folder : Text
folder = 0xD83D ∷ 0xDCC1 ∷ []

abbrev page : Text
page = 0xD83D ∷ 0xDCC4 ∷ []

-- Row `i` of the table; `grouped n` is `n.toLocaleString()`.
unfoldable pub entry_row : (ℕ → Text) → ℕ → Entry → Template
entry_row grouped i e =
    lit "<tr><td><button class=\"entry\" data-index=\""
    ⨾ number i
    ⨾ lit "\">"
    ⨾ choice e.directory (raw folder ⨾ end) (raw page ⨾ end)
    ⨾ lit " "
    ⨾ escaped e.name
    ⨾ lit "</button></td><td>"
    ⨾ choice e.directory (literal "—") (bare (grouped e.size) ⨾ lit " B" ⨾ end)
    ⨾ lit "</td><td><button class=\"rename\" data-index=\""
    ⨾ number i
    ⨾ lit "\">重命名</button> <button class=\"delete\" data-index=\""
    ⨾ number i
    ⨾ lit "\">删除</button></td></tr>"
    ⨾ end

abbrev pub entry_rows : (ℕ → Text) → ℕ → List Entry → Rows
entry_rows grouped i [] = no_rows
entry_rows grouped i (e ∷ es) = row (entry_row grouped i e) (entry_rows grouped (suc i) es)

unfoldable pub table : (ℕ → Text) → List Entry → Template
unfolding entry_row
table grouped es =
    lit "<table><thead><tr><th>名称</th><th>大小</th><th>操作</th></tr>"
    ⨾ lit "</thead><tbody>"
    ⨾ each (entry_rows grouped 0 es)
    ⨾ lit "</tbody></table>"
    ⨾ end
