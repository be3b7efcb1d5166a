-- ===== src/Web/Escape.antt =====
-- `esc` of internal/server/web/app.js, which quotes text for HTML, and the HTML that the table
-- loaders build with it: `statusBadge` and the rows of the devices, rules and API keys tables.
pub mod Html
pub mod Laws
use screwlogger.Base.{
  ℕ, Text, codes, concat, List, [], ◌∷◌, ◌++◌, Option, none, some, Bool, if◌then◌else◌, ◌==◌, ◌≡◌,
  refl,
}

-- The function given to `replace`: the entity of one of the five characters, the character else.
unfoldable pub escape_char : ℕ → Text
escape_char c =
    if c == b'&'
    then codes "&amp;"
    else if c == b'<'
    then codes "&lt;"
    else if c == b'>'
    then codes "&gt;"
    else if c == 34
    then codes "&quot;"
    else if c == 39
    then codes "&#39;"
    else c ∷ []

-- `replace` with the flag `g`: every character of the text.
unfoldable pub escape_text : Text → Text
escape_text [] = []
escape_text (c ∷ s) = escape_char c ++ escape_text s

-- `esc`, `none` for a null or undefined argument.
unfoldable pub esc : Option Text → Text
esc none = []
esc (some s) = escape_text s

-- `statusBadge`
unfoldable pub status_badge : Text → Text
status_badge status = concat (
    codes "<span class=\"badge "
    ∷ esc (some status)
    ∷ codes "\">"
    ∷ esc (some status)
    ∷ codes "</span>"
    ∷ [])
