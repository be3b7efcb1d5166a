-- ===== src/Web/Escape/Laws.antt =====
-- What `esc` guarantees.
use screwlogger.Base.{
  ℕ, ◌≡◌, refl, ap, ◌∙◌, ◌≢◌, none, some, [], ◌∷◌, ◌++◌, reverse, arith, All, All-append, Text,
}
use mathlib.Core.List.{append_assoc, append-nil, reverse-append, reverse-cons, reverse-reverse}
use screwlogger.Web.Escape.{escape_char, escape_text, esc}
use screwlogger.Web.Escape.Html.{
  decode_from, decode, in_text, in_tag, in_value, text, tag, tokens_from,
}

decode_from-escape_char :
    (c : ℕ) (s : Text) → decode_from none (escape_char c ++ s) ≡ c ∷ decode_from none s
unfolding decode_from escape_char
decode_from-escape_char c s = ground arith

decode_from-escape_text : (s : Text) → decode_from none (escape_text s) ≡ s
unfolding escape_text
decode_from-escape_text [] = unfold decode_from in refl
decode_from-escape_text (c ∷ s) =
    decode_from-escape_char c (escape_text s) ∙ ap (c ∷◌) (decode_from-escape_text s)

-- A browser that decodes the escaped text reads the text itself.
decode-esc : (s : Text) → decode (esc (some s)) ≡ s
unfolding decode esc
decode-esc s = decode_from-escape_text s

-- A character that neither opens a tag nor ends an attribute value, in either kind of quotes.
abbrev pub IsInert : ℕ → Type 0
IsInert c = (c ≢ b'<') × (c ≢ b'>') × (c ≢ 34) × (c ≢ 39)

escape_char-IsInert : (c : ℕ) → All IsInert (escape_char c)
unfolding escape_char
escape_char-IsInert c = ground arith

escape_text-IsInert : (s : Text) → All IsInert (escape_text s)
unfolding escape_text
escape_text-IsInert [] = tt
escape_text-IsInert (c ∷ s) =
    All-append IsInert (escape_char c) (escape_text s) (escape_char-IsInert c)
      (escape_text-IsInert s)

reverse-cons-append : (x : ℕ) (xs acc : Text) → reverse (x ∷ xs) ++ acc ≡ reverse xs ++ x ∷ acc
reverse-cons-append x xs acc = simp (reverse-cons, append_assoc)

tokens_from-inert_text :
    (xs acc rest : Text)
    → All IsInert xs
    → tokens_from (in_text acc) (xs ++ rest) ≡ tokens_from (in_text (reverse xs ++ acc)) rest
unfolding tokens_from
tokens_from-inert_text [] acc rest h = refl
tokens_from-inert_text (x ∷ xs) acc rest (p, h) =
    ground (arith, tokens_from-inert_text xs (x ∷ acc) rest h, reverse-cons-append x xs acc)

tokens_from-inert_value :
    (xs acc rest : Text)
    → All IsInert xs
    → tokens_from (in_value acc) (xs ++ rest) ≡ tokens_from (in_value (reverse xs ++ acc)) rest
unfolding tokens_from
tokens_from-inert_value [] acc rest h = refl
tokens_from-inert_value (x ∷ xs) acc rest (p, h) =
    ground (arith, tokens_from-inert_value xs (x ∷ acc) rest h, reverse-cons-append x xs acc)

-- Escaped text between two tags is one text token, which reads as the text itself.
pub tokens_from-text :
    (s rest : Text)
    → tokens_from (in_text []) (escape_text s ++ b'<' ∷ rest)
      ≡ text s ∷ tokens_from (in_tag []) rest
unfolding tokens_from decode
tokens_from-text s rest =
    tokens_from-inert_text (escape_text s) [] (b'<' ∷ rest) (escape_text-IsInert s)
    ∙ rw (append-nil, reverse-reverse, decode_from-escape_text)

reverse-value :
    (xs acc : Text) → reverse (34 ∷ (reverse xs ++ acc)) ≡ reverse acc ++ (xs ++ 34 ∷ [])
reverse-value xs acc = simp (reverse-cons, reverse-append, reverse-reverse, append_assoc)

-- Escaped text within double quotes stays within them, up to the end of the tag.
pub tokens_from-value :
    (s acc rest : Text)
    → tokens_from (in_value acc) (escape_text s ++ 34 ∷ b'>' ∷ rest)
      ≡ tag (reverse acc ++ (escape_text s ++ 34 ∷ [])) ∷ tokens_from (in_text []) rest
unfolding tokens_from
tokens_from-value s acc rest =
    tokens_from-inert_value (escape_text s) acc (34 ∷ b'>' ∷ rest) (escape_text-IsInert s)
    ∙ ap (λ t. tag t ∷ tokens_from (in_text []) rest) (reverse-value (escape_text s) acc)
