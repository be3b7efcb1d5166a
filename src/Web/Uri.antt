-- ===== src/Web/Uri.antt =====
-- The two functions on strings that internal/server/web/app.js takes of its language where a value
-- that the operator typed, or that the server sent, enters a request: `encodeURIComponent` and
-- `String.prototype.trim`. A text is a list of UTF-16 code units.
pub mod Safe
pub mod Reading
pub mod RoundTrip
pub mod Segment
pub mod Trim
use screwlogger.Base.{
  ℕ, ◌+◌, ◌-◌, ◌*◌, ◌/◌, ◌%◌, Bool, ◌&&◌, ◌||◌, Option, none, some, List, [], ◌∷◌, ◌++◌, map,
  reverse, ltb, leb, ◌==◌, if◌then◌else◌, Text, concat,
}

-- Letters, digits and `- _ . ! ~ * ' ( )`, which stay as they are.
unfoldable pub unreserved : ℕ → Bool
unreserved c =
    leb b'a' c && leb c b'z'
    || leb b'A' c && leb c b'Z'
    || leb b'0' c && leb c b'9'
    || c == b'-'
    || c == b'_'
    || c == b'.'
    || c == b'!'
    || c == b'~'
    || c == b'*'
    || c == 39
    || c == b'('
    || c == b')'

-- A hexadecimal digit, in upper case.
abbrev hex_digit : ℕ → ℕ
hex_digit d = if ltb d 10 then b'0' + d else b'A' + (d - 10)

-- One byte as `%XX`.
unfoldable pub escape_byte : ℕ → Text
escape_byte b = b'%' ∷ hex_digit (b / 16 % 16) ∷ hex_digit (b % 16) ∷ []

-- The UTF-8 bytes of a code point.
unfoldable pub utf8 : ℕ → List ℕ
utf8 p =
    if ltb p 0x80
    then p ∷ []
    else if ltb p 0x800
    then (0xC0 + p / 64) ∷ (0x80 + p % 64) ∷ []
    else if ltb p 0x10000
    then (0xE0 + p / 4096) ∷ (0x80 + p / 64 % 64) ∷ (0x80 + p % 64) ∷ []
    else (0xF0 + p / 262144) ∷ (0x80 + p / 4096 % 64) ∷ (0x80 + p / 64 % 64) ∷ (0x80 + p % 64) ∷ []

unfoldable pub escape_point : ℕ → Text
unfolding unreserved escape_byte utf8
escape_point p = if unreserved p then p ∷ [] else concat (map escape_byte (utf8 p))

abbrev pub high_surrogate : ℕ → Bool
high_surrogate c = leb 0xD800 c && ltb c 0xDC00

abbrev pub low_surrogate : ℕ → Bool
low_surrogate c = leb 0xDC00 c && ltb c 0xE000

abbrev pub prepend : Text → Option Text → Option Text
prepend s none = none
prepend s (some t) = some (s ++ t)

-- The first argument is a high surrogate that waits for its other half.
unfoldable pub encode_from : Option ℕ → Text → Option Text
encode_from none [] = some []
encode_from (some high) [] = none
encode_from (some high) (c ∷ s) =
    let pair =
      prepend (escape_point (0x10000 + (high - 0xD800) * 1024 + (c - 0xDC00)))
        (encode_from none s) in
    if low_surrogate c then pair else none
encode_from none (c ∷ s) =
    let opened = encode_from (some c) s in
    let plain = prepend (escape_point c) (encode_from none s) in
    if high_surrogate c then opened else if low_surrogate c then none else plain

-- `encodeURIComponent`; `none` for the `URIError` that a lone surrogate throws.
unfoldable pub encode_uri_component : Text → Option Text
unfolding encode_from
encode_uri_component s = encode_from none s

-- White space and line ends, as `trim` takes them.
unfoldable pub is_space : ℕ → Bool
is_space c =
    leb 9 c && leb c 13
    || c == 32
    || c == 160
    || c == 0x1680
    || leb 0x2000 c && leb c 0x200A
    || c == 0x2028
    || c == 0x2029
    || c == 0x202F
    || c == 0x205F
    || c == 0x3000
    || c == 0xFEFF

unfoldable pub trim_start : Text → Text
trim_start [] = []
trim_start (c ∷ s) = if is_space c then trim_start s else c ∷ s

-- `trim`
unfoldable pub trim : Text → Text
unfolding trim_start
trim s = reverse (trim_start (reverse (trim_start s)))
