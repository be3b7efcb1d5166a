-- ===== src/Agent/Samples.antt =====
-- `EncodeSample` and `DecodeSample` of internal/agent/sample.go. The encoding by encoding/json is a
-- parameter.
use screwlogger.Base.{
  ◌≡◌, refl, inl, inr, Bool, Option, none, some, [], ◌∷◌, ◌++◌, arith, if◌then◌else◌, Bool-cases,
  is_empty, length-append, Text,
}

pub record Sample : Type 0 where
  pub app : Text
  pub active : Bool

-- `json.Marshal` and `json.Unmarshal` on samples.
pub record SampleJson : Type 0 where
  pub marshal_sample : Sample → Text
  pub unmarshal_sample : Text → Option Sample

module _ (j : SampleJson) where
  -- `EncodeSample`
  abbrev pub encode_sample : Sample → Text
  encode_sample s = j.marshal_sample s ++ 10 ∷ []

  abbrev pub with_app : Option Sample → Option Sample
  with_app none = none
  with_app (some s) = if is_empty s.app then none else some s

  -- `DecodeSample`; `none` for an error.
  unfoldable pub decode_sample : Text → Option Sample
  decode_sample line = if is_empty line then none else with_app (j.unmarshal_sample line)

  -- A sample that is sent as a line is read as itself if it names an application, and rejected if not.
  pub decode_sample-encode_sample :
      (s : Sample)
      → j.unmarshal_sample (encode_sample s) ≡ some s
      → decode_sample (encode_sample s) ≡ (if is_empty s.app then none else some s)
  unfolding decode_sample
  decode_sample-encode_sample s e = elim (Bool-cases (is_empty (encode_sample s))) [
    | inl f ↦ absurd (ground (arith, f, length-append (j.marshal_sample s) (10 ∷ [])))
    | inr f ↦ rw (f, e) refl
  ]
