-- ===== src/Console/Parts.antt =====
-- The parts of the pages of web/static/app.js: icons, badges, panels, figures, events, checks, and
-- the fields and the frame of a dialog.
use Prim.Native.String.{String}
use net_conductor.Base.{ℕ, Bool, not, List, [], ◌∷◌, if◌then◌else◌, take, is_nil, reverse}
use net_conductor.Base.Text.{Text, codes, text_eq}
use net_conductor.Console.Template.{
  Template, raw, escaped, bare, choice, nested, each, end, ◌⨾◌, lit, literal, rows,
}
use net_conductor.Console.State.{Event, Check, is_blank, or_else}
use net_conductor.Console.Format.{Host, date}

abbrev devices_icon : Template
devices_icon =
    lit "<rect x=\"3\" y=\"3\" width=\"18\" height=\"13\" rx=\"2\"/>"
    ⨾ lit "<path d=\"M8 21h8m-4-5v5\"/>"
    ⨾ end

-- `icons`
abbrev icons : List (Text × Template)
icons =
    (
      codes "home",
      lit "<rect x=\"3\" y=\"3\" width=\"7\" height=\"7\" rx=\"1\"/>"
          ⨾ lit "<rect x=\"14\" y=\"3\" width=\"7\" height=\"7\" rx=\"1\"/>"
          ⨾ lit "<rect x=\"3\" y=\"14\" width=\"7\" height=\"7\" rx=\"1\"/>"
          ⨾ lit "<rect x=\"14\" y=\"14\" width=\"7\" height=\"7\" rx=\"1\"/>"
          ⨾ end,
    )
    ∷ (codes "devices", devices_icon)
    ∷ (codes "proxy", lit "<path d=\"M3 7h17m-4-4 4 4-4 4M21 17H4m4-4-4 4 4 4\"/>" ⨾ end)
    ∷ (
      codes "maps",
      lit "<path d=\"M8 3H3v5m0-5 7 7m6 11h5v-5m0 5-7-7\"/>"
          ⨾ lit "<rect x=\"8\" y=\"8\" width=\"8\" height=\"8\" rx=\"2\"/>"
          ⨾ end,
    )
    ∷ (codes "logs", lit "<path d=\"M8 3H4v18h16V3h-4M9 2h6v4H9zM8 11h8M8 15h6\"/>" ⨾ end)
    ∷ (
      codes "repair",
      lit "<path d=\"M14 5a6 6 0 0 0-7 8L2 18l4 4 5-5a6 6 0 0 0 8-7l-4 " ⨾ lit "4-5-5z\"/>" ⨾ end,
    )
    ∷ (codes "cloud", lit "<path d=\"M6 18a5 5 0 0 1 0-10 7 7 0 0 1 13 2 4 4 0 0 1 0 8z\"/>" ⨾ end)
    ∷ (codes "ssh", lit "<path d=\"m5 7 5 5-5 5m8 0h6\"/>" ⨾ end)
    ∷ (
      codes "shield",
      lit "<path d=\"m12 2 9 4v6c0 5-9 10-9 10S3 17 3 12V6zM8 12l3 3 5-6\"/>" ⨾ end,
    )
    ∷ []

-- `icons[n] || icons.devices`
abbrev icon_at : Text → List (Text × Template) → Template
icon_at n [] = devices_icon
icon_at n ((k, t) ∷ ks) = if text_eq k n then t else icon_at n ks

-- `ico(n)`
unfoldable pub ico : Text → Template
ico n =
    lit "<svg viewBox=\"0 0 24 24\" aria-hidden=\"true\">"
    ⨾ nested (icon_at n icons)
    ⨾ lit "</svg>"
    ⨾ end

-- `badge(on, text)`, where a missing text is the empty one.
unfoldable pub badge : Bool → Text → Template
badge on text =
    lit "<span class=\"tag "
    ⨾ choice on end (literal "off")
    ⨾ lit "\"><i class=\"dot\"></i>"
    ⨾ escaped (or_else text (codes (if on then "在线" else "离线")))
    ⨾ lit "</span>"
    ⨾ end

-- `panel(title, body, action, subtitle)`, where a missing action or subtitle is empty.
unfoldable pub panel : String → Template → Template → Text → Template
panel title body action subtitle =
    lit "<section class=\"panel\"><div class=\"panel-head\"><div><h2>"
    ⨾ nested (literal title)
    ⨾ lit "</h2>"
    ⨾ choice (not (is_blank subtitle)) (lit "<p>" ⨾ raw subtitle ⨾ lit "</p>" ⨾ end) end
    ⨾ lit "</div>"
    ⨾ nested action
    ⨾ lit "</div>"
    ⨾ nested body
    ⨾ lit "</section>"
    ⨾ end

-- `stat(title, value, sub, icon)`
unfoldable pub stat : String → Template → String → Text → Template
unfolding ico
stat title value sub icon =
    lit "<div class=\"stat\"><label>"
    ⨾ nested (literal title)
    ⨾ lit "</label><strong>"
    ⨾ nested value
    ⨾ lit "</strong><span>"
    ⨾ nested (literal sub)
    ⨾ lit "</span><div class=\"ico\">"
    ⨾ nested (ico icon)
    ⨾ lit "</div></div>"
    ⨾ end

unfoldable pub event_row : Host → Event → Template
unfolding date
event_row host e =
    lit "<div class=\"event\"><time>"
    ⨾ bare (date host e.at)
    ⨾ lit "</time><div><strong>"
    ⨾ escaped e.action
    ⨾ lit "</strong><small>"
    ⨾ escaped e.detail
    ⨾ lit "</small></div></div>"
    ⨾ end

-- `events()`: the last five events, or a hundred on their own page, from the last on.
unfoldable pub events : Host → ℕ → List Event → Template
unfolding event_row
events host n es =
    choice (is_nil es) (lit "<div class=\"empty\">暂无事件记录</div>" ⨾ end)
      (each (rows (event_row host) (take n (reverse es))) ⨾ end)
    ⨾ end

unfoldable pub check_row : Check → Template
unfolding badge
check_row c =
    lit "<div class=\"check\"><div>"
    ⨾ escaped c.name
    ⨾ lit "<small>"
    ⨾ escaped c.detail
    ⨾ lit "</small></div>"
    ⨾ nested (badge c.ok (codes (if c.ok then "正常" else "需检查")))
    ⨾ lit "</div>"
    ⨾ end

-- `checks()`; a row is never empty, so `||` tests whether there is one.
unfoldable pub checks : List Check → Template
unfolding check_row
checks cs =
    choice (is_nil cs) (lit "<div class=\"empty\">正在获取检查结果…</div>" ⨾ end)
      (each (rows check_row cs) ⨾ end)
    ⨾ end

-- `field(label, name, value, type, extra)`
unfoldable pub field : String → String → Text → String → String → Template
field label name value type extra =
    lit "<label class=\"field\">"
    ⨾ nested (literal label)
    ⨾ lit "<input name=\""
    ⨾ nested (literal name)
    ⨾ lit "\" type=\""
    ⨾ nested (literal type)
    ⨾ lit "\" value=\""
    ⨾ escaped value
    ⨾ lit "\" "
    ⨾ nested (literal extra)
    ⨾ lit "></label>"
    ⨾ end

-- An option of a select with the value `value`.
unfoldable pub option : Text → Text × Text → Template
option value (v, t) =
    lit "<option value=\""
    ⨾ escaped v
    ⨾ lit "\" "
    ⨾ choice (text_eq v value) (literal "selected") end
    ⨾ lit ">"
    ⨾ escaped t
    ⨾ lit "</option>"
    ⨾ end

-- `select(label, name, options, value)`
unfoldable pub select : Template → Template → List (Text × Text) → Text → Template
unfolding option
select label name options value =
    lit "<label class=\"field\">"
    ⨾ nested label
    ⨾ lit "<select name=\""
    ⨾ nested name
    ⨾ lit "\">"
    ⨾ each (rows (option value) options)
    ⨾ lit "</select></label>"
    ⨾ end

-- What `modal(title, body, onSubmit)` shows.
unfoldable pub modal : Template → Template → Template
modal title body =
    lit "<header><h2>"
    ⨾ nested title
    ⨾ lit "</h2><button data-action=\"close-dialog\" type=\"button\">"
    ⨾ lit "✕</button></header><form>"
    ⨾ nested body
    ⨾ lit "<p class=\"form-error\"></p><div class=\"actions\">"
    ⨾ lit "<button type=\"button\" data-action=\"close-dialog\">取消</button>"
    ⨾ lit "<button class=\"primary\" type=\"submit\">保存</button></div>"
    ⨾ lit "</form>"
    ⨾ end
