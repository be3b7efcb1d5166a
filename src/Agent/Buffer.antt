-- ===== src/Agent/Buffer.antt =====
-- `Buffer` of internal/agent/buffer.go, at the level of the bytes of its file: one JSON line for each
-- heartbeat, an offset below which all lines are acknowledged, and the size. The encoding of a
-- heartbeat is that of encoding/json, a parameter. Failures of the file system are left out.
pub mod Lines
pub mod Queue
pub mod Refines
pub mod Size
use screwlogger.Base.{
  ℕ, zero, suc, ◌+◌, ◌-◌, ◌*◌, ◌/◌, ◌^◌, Bool, true, false, Option, none, some, List, [], ◌∷◌, ◌++◌,
  leb, ◌==◌, if◌then◌else◌, length, drop, Text,
}
use screwlogger.Server.Ingest.{IngestBatch}
use screwlogger.Server.Store.{Sent}

-- `json.Marshal` and `json.Unmarshal` on heartbeats; `none` for a line that is no heartbeat.
pub record Json : Type 0 where
  pub marshal : Sent → Text
  pub unmarshal : Text → Option Sent
  -- the length of `json.Marshal` of a whole batch
  pub batch_size : IngestBatch → ℕ

-- The content of the file stands for the open file; `size` and `acked_off` are the fields.
pub record Buffer : Type 0 where
  pub max_bytes : ℕ
  pub file : Text
  pub acked_off : ℕ
  pub size : ℕ

-- `OpenBuffer` on a file with that content, which is empty if there was none.
unfoldable pub open_buffer : ℕ → Text → Buffer
open_buffer max_bytes content = record {
  max_bytes = max_bytes;
  file = content;
  acked_off = 0;
  size = 0;
}

abbrev pub newline : ℕ
newline = 10

-- `Seek` and what is read from there on.
unfoldable pub seek : ℕ → Text → Text
seek zero s = s
seek (suc n) [] = []
seek (suc n) (c ∷ s) = seek n s

abbrev cons_first : ℕ → List Text → List Text
cons_first c [] = (c ∷ []) ∷ []
cons_first c (l ∷ ls) = (c ∷ l) ∷ ls

-- The lines of a text; the last one may lack its newline.
unfoldable pub raw_lines : Text → List Text
raw_lines [] = []
raw_lines (c ∷ s) = if c == newline then [] ∷ raw_lines s else cons_first c (raw_lines s)

-- A carriage return at the end of a line is no part of its token.
unfoldable pub drop_cr : Text → Text
drop_cr [] = []
drop_cr (c ∷ []) = if c == 13 then [] else c ∷ []
drop_cr (c ∷ d ∷ s) = c ∷ drop_cr (d ∷ s)

-- `bufio.MaxScanTokenSize`: a longer line ends a scan with an error.
abbrev pub max_token : ℕ
max_token = 65536

abbrev pub too_long : Text → Bool
too_long l = leb max_token (length l)

abbrev pub prepend_sent : Option Sent → Option (List Sent) → Option (List Sent)
prepend_sent (some h) (some hs) = some (h ∷ hs)
prepend_sent _ _ = none

-- The bytes of `count` lines, each with one byte for its newline; `none` for a scan that fails.
abbrev pub add_line : Text → Option ℕ → Option ℕ
add_line l none = none
add_line l (some n) = some (length (drop_cr l) + 1 + n)

unfoldable pub advance : ℕ → List Text → Option ℕ
unfolding drop_cr
advance zero ls = some 0
advance (suc n) [] = some 0
advance (suc n) (l ∷ ls) = let rest = add_line l (advance n ls) in if too_long l then none else rest

-- `1 << 30`
abbrev pub all : ℕ
all = 2 ^ 30

module _ (j : Json) where
  -- A heartbeat as a line of the file.
  abbrev pub line : Sent → Text
  line h = j.marshal h ++ newline ∷ []

  unfoldable pub encode : List Sent → Text
  encode [] = []
  encode (h ∷ hs) = line h ++ encode hs

  -- The loop of `Unacked`. Once the limit is reached, one more line is scanned, which may be too long.
  unfoldable pub read_lines : ℕ → List Text → Option (List Sent)
  unfolding drop_cr
  read_lines n [] = some []
  read_lines zero (l ∷ ls) = if too_long l then none else some []
  read_lines (suc n) (l ∷ ls) =
      let rest = prepend_sent (j.unmarshal (drop_cr l)) (read_lines n ls) in
      if too_long l then none else rest

  -- `Unacked`; `none` for an error.
  unfoldable pub unacked : ℕ → Buffer → Option (List Sent)
  unfolding read_lines raw_lines seek
  unacked limit b =
      if limit == 0 then some [] else read_lines limit (raw_lines (seek b.acked_off b.file))

  -- `rewrite`
  unfoldable pub rewrite : List Sent → Buffer → Buffer
  unfolding encode
  rewrite entries b = record b {
    file = encode entries;
    acked_off = 0;
    size = length (encode entries);
  }

  -- `rotateIfFull`
  unfoldable pub rotate_if_full : Buffer → Option Buffer
  unfolding unacked rewrite
  rotate_if_full b =
      if leb (b.size - b.acked_off) b.max_bytes
      then some b
      else elim (unacked all b) [ none ↦ none | some q ↦ some (rewrite (drop (length q / 2) q) b) ]

  abbrev pub written : Sent → Buffer → Buffer
  written h b = record b { file = b.file ++ line h; size = b.size + length (j.marshal h) + 1 }

  -- `Append`; `none` for an error, after which the buffer is as before.
  unfoldable pub append : Sent → Buffer → Option Buffer
  unfolding rotate_if_full
  append h b = elim (rotate_if_full b) [ none ↦ none | some c ↦ some (written h c) ]

  -- `compact`, with whether it succeeds.
  unfoldable pub compact : Buffer → Buffer × Bool
  unfolding unacked rewrite
  compact b = elim (unacked all b) [ none ↦ (b, false) | some q ↦ (rewrite q b, true) ]

  abbrev pub acked : ℕ → Buffer → Buffer × Bool
  acked n b =
      let c = record b { acked_off = b.acked_off + n } in
      if leb c.size (c.acked_off * 2) then compact c else (c, true)

  -- `Ack`, with whether it succeeds.
  unfoldable pub ack : ℕ → Buffer → Buffer × Bool
  unfolding advance raw_lines seek compact
  ack count b =
      if count == 0 then (b, true) else elim (advance count (raw_lines (seek b.acked_off b.file))) [
        | none ↦ (b, false)
        | some n ↦ acked n b
      ]
