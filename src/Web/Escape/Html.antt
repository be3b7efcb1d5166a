-- ===== src/Web/Escape/Html.antt =====
-- How a browser reads the HTML that the table loaders build: an independent description of the
-- part of the HTML syntax that they use. Text, tags, double-quoted attribute values and the five
-- character references of `esc`.
use screwlogger.Base.{
  ℕ, Text, codes, List, [], ◌∷◌, ◌++◌, reverse, Option, none, some, if◌then◌else◌, ◌==◌, text_eq,
}

-- The character that a reference `&name;` stands for; an unknown reference stands for itself.
unfoldable pub entity : Text → Text
unfolding text_eq
entity name =
    if text_eq name (codes "amp")
    then b'&' ∷ []
    else if text_eq name (codes "lt")
    then b'<' ∷ []
    else if text_eq name (codes "gt")
    then b'>' ∷ []
    else if text_eq name (codes "quot")
    then 34 ∷ []
    else if text_eq name (codes "#39")
    then 39 ∷ []
    else b'&' ∷ (name ++ b';' ∷ [])

-- Decoding of references; the first argument is the reference being read, reversed.
unfoldable pub decode_from : Option Text → Text → Text
unfolding entity
decode_from none [] = []
decode_from (some name) [] = b'&' ∷ reverse name
decode_from none (c ∷ s) =
    let plain = c ∷ decode_from none s in
    let opened = decode_from (some []) s in if c == b'&' then opened else plain
decode_from (some name) (c ∷ s) =
    let closed = entity (reverse name) ++ decode_from none s in
    let longer = decode_from (some (c ∷ name)) s in if c == b';' then closed else longer

unfoldable pub decode : Text → Text
unfolding decode_from
decode s = decode_from none s

-- What the reader is in: text, a tag, or an attribute value within a tag, each with the characters
-- read so far, the last one first.
pub data Mode : Type 0 where
  in_text in_tag in_value : Text → Mode

pub data Token : Type 0 where
  text : Text → Token
  tag : Text → Token

-- One character: the next mode and the tokens that it ends. The text of a text token is decoded.
unfoldable pub read : Mode → ℕ → Mode
read (in_text acc) c = if c == b'<' then in_tag [] else in_text (c ∷ acc)
read (in_tag acc) c =
    if c == b'>' then in_text [] else if c == 34 then in_value (c ∷ acc) else in_tag (c ∷ acc)
read (in_value acc) c = if c == 34 then in_tag (c ∷ acc) else in_value (c ∷ acc)

unfoldable pub ended : Mode → ℕ → List Token
ended (in_text acc) c = if c == b'<' then text (decode (reverse acc)) ∷ [] else []
ended (in_tag acc) c = if c == b'>' then tag (reverse acc) ∷ [] else []
ended (in_value acc) c = []

-- The tokens of a whole text. An open text ends with it; an open tag makes no token.
unfoldable pub tokens_from : Mode → Text → List Token
unfolding read ended
tokens_from (in_text acc) [] = text (decode (reverse acc)) ∷ []
tokens_from (in_tag acc) [] = []
tokens_from (in_value acc) [] = []
tokens_from m (c ∷ s) = ended m c ++ tokens_from (read m c) s

unfoldable pub tokens : Text → List Token
unfolding tokens_from
tokens s = tokens_from (in_text []) s
