-- ===== src/Agent/Pipe/Arrivals.antt =====
-- Samples on their way from `EncodeSample` of the watcher to `readClient` of the service.
use screwlogger.Base.{
  ◌<◌, ◌≡◌, refl, ap, ◌∙◌, false, some, List, [], ◌∷◌, map, arith, if◌then◌else◌, length, is_empty,
  All, concat,
}
use mathlib.Core.List.{append_assoc}
use screwlogger.Agent.Buffer.{raw_lines, newline}
use screwlogger.Agent.Buffer.Lines.{OneLine, raw_lines-line, drop_cr_lem}
use screwlogger.Agent.Samples.{Sample, SampleJson, encode_sample, with_app, decode_sample}
use screwlogger.Agent.Pipe.{read_client, max_sample}

-- What is relied on of encoding/json: an encoded sample is one line that is not empty, since control
-- characters are escaped, and decodes to itself.
pub record IsSampleJson (j : SampleJson) : Type 0 where
  pub one_line : (s : Sample) → OneLine (j.marshal_sample s)
  pub some_line : (s : Sample) → is_empty (j.marshal_sample s) ≡ false
  pub roundtrip : (s : Sample) → j.unmarshal_sample (j.marshal_sample s) ≡ some s

-- The samples that name an application.
unfoldable pub named : List Sample → List Sample
named [] = []
named (s ∷ ss) = if is_empty s.app then named ss else s ∷ named ss

module _ (j : SampleJson) (law : IsSampleJson j) where
  abbrev IsShort : Sample → Type 0
  IsShort s = length (j.marshal_sample s) < max_sample

  raw_lines-sent :
      (ss : List Sample) → raw_lines (concat (map (encode_sample j) ss)) ≡ map j.marshal_sample ss
  raw_lines-sent [] = unfold raw_lines in refl
  raw_lines-sent (s ∷ ss) =
      ap raw_lines
        (append_assoc (j.marshal_sample s) (newline ∷ []) (concat (map (encode_sample j) ss)))
      ∙ raw_lines-line (j.marshal_sample s) (concat (map (encode_sample j) ss)) (law.one_line s)
      ∙ ap (j.marshal_sample s ∷◌) (raw_lines-sent ss)

  decode_sample-marshal : (s : Sample) → decode_sample j (j.marshal_sample s) ≡ with_app j (some s)
  unfolding decode_sample
  decode_sample-marshal s = rw (law.some_line s, law.roundtrip s) refl

  read_client-marshal :
      (ss : List Sample) → All IsShort ss → read_client j (map j.marshal_sample ss) ≡ named ss
  unfolding read_client named
  read_client-marshal [] f = refl
  read_client-marshal (s ∷ ss) (f, g) = ground (
    arith,
    f,
    drop_cr_lem (j.marshal_sample s) (law.one_line s),
    decode_sample-marshal s,
    read_client-marshal ss g,
  )

-- The service reads from the pipe exactly the samples that the watcher has written, in their order, but
-- for those without the name of an application, if each is encoded in less than 4096 bytes and the
-- channel to the agent has room.
pub read_client-encode_sample :
    (j : SampleJson) (ss : List Sample)
    → IsSampleJson j
    → All (λ s. length (j.marshal_sample s) < max_sample) ss
    → read_client j (raw_lines (concat (map (encode_sample j) ss))) ≡ named ss
read_client-encode_sample j ss law short =
    ap (read_client j) (raw_lines-sent j law ss) ∙ read_client-marshal j law ss short
