-- ===== src/Web/Rows/Reading.antt =====
-- How a browser reads a row: the tags of the template, and the data as text.
use screwlogger.Base.{ℕ, ◌*◌, ◌≡◌, refl, Option, none, some, List, [], ◌∷◌, ◌++◌, Text, codes}
use mathlib.Core.List.{append_assoc}
use screwlogger.Web.Wire.{Device, Rule, Key}
use screwlogger.Web.Format.{Browser, fmt_ts}
use screwlogger.Web.Escape.{esc, escape_text}
use screwlogger.Web.Escape.Html.{Token, text, tag, tokens, tokens_from, decode, in_text, in_tag}
use screwlogger.Web.Escape.Laws.{tokens_from-text, tokens_from-value}
use screwlogger.Web.Rows.{revoked_cell, device_html, rule_html, key_html}

-- The tokens of a cell: `<td>`, what it shows, `</td>`, each tag with the text before it.
abbrev pub cell : Text → List Token → List Token
cell s rest = text [] ∷ tag (codes "td") ∷ text s ∷ tag (codes "/td") ∷ rest

abbrev pub actions_cell : List Token
actions_cell =
    text [] ∷ tag (codes "td class=\"actions\"") ∷ text [] ∷ tag (codes "/td") ∷ text [] ∷ []

-- The token list of the status badge: its class holds the escaped status, its text the status.
abbrev pub badge : Text → List Token → List Token
badge status rest =
    text []
    ∷ tag (codes "span class=\"badge " ++ escape_text status ++ 34 ∷ [])
    ∷ text status
    ∷ tag (codes "/span")
    ∷ rest

-- The tokens of the three templates with the data as texts.
abbrev pub device_tokens : Browser → Device → List Token
device_tokens b d =
    text []
    ∷ tag (codes "td class=\"dev-name\"")
    ∷ text d.name
    ∷ tag (codes "/td")
    ∷ cell (fmt_ts b d.last_seen)
        (text [] ∷ tag (codes "td") ∷ badge d.status (text [] ∷ tag (codes "/td") ∷ actions_cell))

abbrev pub rule_tokens : Browser → Rule → List Token
rule_tokens b r =
    text []
    ∷ tag (codes "td")
    ∷ text []
    ∷ tag (codes "code")
    ∷ text r.pattern
    ∷ tag (codes "/code")
    ∷ text []
    ∷ tag (codes "/td")
    ∷ cell r.category (cell (fmt_ts b (some r.updated_at)) actions_cell)

abbrev pub key_tokens : Browser → Key → List Token
key_tokens b k = cell k.label (
    cell (fmt_ts b (some k.created_at)) (
      cell (fmt_ts b k.revoked_at) (
        text []
        ∷ tag (codes "td")
        ∷ text []
        ∷ tag (codes "code")
        ∷ text k.hash_prefix
        ∷ tag (codes "/code")
        ∷ text []
        ∷ tag (codes "/td")
        ∷ actions_cell)))

tokens-rule_html : (b : Browser) (r : Rule) → tokens (rule_html b r) ≡ rule_tokens b r
unfolding tokens rule_html esc decode
tokens-rule_html b r = simp tokens_from-text

-- The cell of `revoked_at`: the escaped time, or the dash.
key_cells :
    (b : Browser) (o : Option ℕ) (rest : Text)
    → tokens_from (in_text []) (revoked_cell b o ++ b'<' ∷ rest)
      ≡ text (fmt_ts b o) ∷ tokens_from (in_tag []) rest
unfolding fmt_ts esc decode tokens_from
key_cells b none rest = refl
key_cells b (some ts) rest = tokens_from-text (b.locale_string (ts * 1000)) rest

tokens-key_html : (b : Browser) (k : Key) → tokens (key_html b k) ≡ key_tokens b k
unfolding tokens key_html esc decode
tokens-key_html b k = simp (tokens_from-text, key_cells)

tokens-device_html : (b : Browser) (d : Device) → tokens (device_html b d) ≡ device_tokens b d
unfolding tokens device_html esc decode
tokens-device_html b d = simp (tokens_from-text, tokens_from-value, append_assoc)

-- A browser reads the row of a device, of a rule and of an API key as the tags of its template with
-- the data as texts: the name, the status, the pattern, the category, the label, the prefix and the
-- dates, whatever characters they hold. The status also stands in the class of the badge, where it
-- cannot leave its quotes; a key that is not revoked has the dash for its second date.
pub rows_read_back :
    (b : Browser) (d : Device) (r : Rule) (k : Key)
    → (tokens (device_html b d) ≡ device_tokens b d)
      × (tokens (rule_html b r) ≡ rule_tokens b r)
      × (tokens (key_html b k) ≡ key_tokens b k)
rows_read_back b d r k = (tokens-device_html b d, tokens-rule_html b r, tokens-key_html b k)
