-- ===== src/Web/Uri/Reading.antt =====
-- How a server reads a segment of a path that `encodeURIComponent` has made: the percent-encoding of
-- RFC 3986, UTF-8 and UTF-16, independent of the encoder.
use screwlogger.Base.{
  ℕ, zero, suc, ◌+◌, ◌-◌, ◌*◌, ◌/◌, ◌%◌, ◌<◌, ◌≡◌, inl, inr, List, [], ◌∷◌, ◌++◌, arith, ltb, leb,
  ◌==◌, if◌then◌else◌, Bool-cases, Text,
}
use screwlogger.Web.Uri.{utf8}

-- Where a reader of percent-encoded bytes is: outside of an escape, after the sign, or after one digit.
pub data EscapeMode : Type 0 where
  outside after_percent : EscapeMode
  after_digit : ℕ → EscapeMode

-- The value of a hexadecimal digit.
abbrev pub hex_value : ℕ → ℕ
hex_value c = if leb c b'9' then c - b'0' else if leb c b'F' then c - 55 else c - 87

abbrev pub escape_next : EscapeMode → ℕ → EscapeMode
escape_next outside c = if c == b'%' then after_percent else outside
escape_next after_percent c = after_digit (hex_value c)
escape_next (after_digit v) c = outside

abbrev pub escape_bytes : EscapeMode → ℕ → List ℕ
escape_bytes outside c = if c == b'%' then [] else c ∷ []
escape_bytes after_percent c = []
escape_bytes (after_digit v) c = (16 * v + hex_value c) ∷ []

-- The bytes that a text stands for.
unfoldable pub unescape_from : EscapeMode → Text → List ℕ
unescape_from m [] = []
unescape_from m (c ∷ s) = escape_bytes m c ++ unescape_from (escape_next m c) s

-- Where a reader of UTF-8 is: before a character, or inside one, with the number of bytes that are
-- still to come, less one, and the value so far.
pub data Utf8Mode : Type 0 where
  between : Utf8Mode
  inside : ℕ → ℕ → Utf8Mode

abbrev pub utf8_next : Utf8Mode → ℕ → Utf8Mode
utf8_next between b =
    if ltb b 0x80
    then between
    else if ltb b 0xE0
    then inside 0 (b - 0xC0)
    else if ltb b 0xF0
    then inside 1 (b - 0xE0)
    else inside 2 (b - 0xF0)
utf8_next (inside zero v) b = between
utf8_next (inside (suc n) v) b = inside n (v * 64 + (b - 0x80))

-- The code units of a code point in UTF-16.
abbrev pub units : ℕ → Text
units p =
    if ltb p 0x10000
    then p ∷ []
    else (0xD800 + (p - 0x10000) / 1024) ∷ (0xDC00 + (p - 0x10000) % 1024) ∷ []

abbrev pub utf8_units : Utf8Mode → ℕ → Text
utf8_units between b = if ltb b 0x80 then units b else []
utf8_units (inside zero v) b = units (v * 64 + (b - 0x80))
utf8_units (inside (suc n) v) b = []

unfoldable pub decode_utf8 : Utf8Mode → List ℕ → Text
decode_utf8 m [] = []
decode_utf8 m (b ∷ bs) = utf8_units m b ++ decode_utf8 (utf8_next m b) bs

-- The text that a server reads.
unfoldable pub read_component : Text → Text
unfolding unescape_from decode_utf8
read_component s = decode_utf8 between (unescape_from outside s)

-- A character in UTF-8 is read as its code units.
pub decode_utf8-utf8 :
    (p : ℕ) (bs : List ℕ)
    → p < 0x110000
    → decode_utf8 between (utf8 p ++ bs) ≡ units p ++ decode_utf8 between bs
unfolding decode_utf8 utf8
decode_utf8-utf8 p bs h = elim (Bool-cases (ltb p 0x80)) [
  | inl e ↦ ground arith
  | inr e ↦ elim (Bool-cases (ltb p 0x800)) [
    | inl f ↦ ground arith
    | inr f ↦ elim (Bool-cases (ltb p 0x10000)) [ inl g ↦ ground arith | inr g ↦ ground arith ]
  ]
]
