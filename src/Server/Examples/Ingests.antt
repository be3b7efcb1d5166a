-- ===== src/Server/Examples/Ingests.antt =====
-- Requests to the endpoint at which agents deliver heartbeats.
use screwlogger.Base.{ℕ, ◌≡◌, refl, true, none, some, [], ◌∷◌, ◌++◌, map, Text, codes, text_eq}
use screwlogger.Server.Store.{insert_heartbeats, device_id_by_token, Store, has_beat}
use screwlogger.Server.Ingest.{IngestRequest, ingest, status_of}
use screwlogger.Server.Ingest.Refused.{Verdict, ingest-Verdict}

-- A stand-in for the hash of a token.
abbrev tagged : Text → Text
tagged s = b'#' ∷ s

abbrev before : Store
before = record {
  devices =
      record {
        id = codes "a";
        name = codes "PC 4";
        token_hash = codes "#sl_a";
        enrolled_at = 10;
        last_seen = none;
        revoked_at = none;
      }
      ∷ [];
  heartbeats = [];
}

abbrev request_with : Text → Text → ℕ → IngestRequest
request_with scheme token version = record {
  is_post = true;
  authorization = scheme ++ token;
  body = some (record {
    schema_version = version;
    device_sent_at = 190;
    heartbeats =
        record {
          id = codes "u1";
          ts = 100;
          app = codes "x.exe";
          category = codes "MES";
          active = true;
        }
        ∷ [];
  });
}

abbrev good : IngestRequest
good = request_with (codes "Bearer ") (codes "sl_a") 1

abbrev answer : IngestRequest → ℕ
answer r = status_of (ingest tagged 200 r before).0

answers :
    map answer (
      good
      ∷ request_with (codes "Bearer ") (codes "sl_b") 1
      ∷ request_with (codes "Bearer ") [] 1
      ∷ request_with (codes "bearer ") (codes "sl_a") 1
      ∷ request_with (codes "Bearer ") (codes "sl_a") 2
      ∷ [])
    ≡ 200 ∷ 401 ∷ 401 ∷ 401 ∷ 400 ∷ []
unfolding ingest device_id_by_token insert_heartbeats text_eq
answers = refl

delivered : has_beat (codes "u1") (ingest tagged 200 good before).1.heartbeats ≡ true
unfolding ingest device_id_by_token insert_heartbeats text_eq
delivered = refl

ingest-Verdict_example : Verdict tagged 200 good before (ingest tagged 200 good before)
ingest-Verdict_example = ingest-Verdict tagged 200 good before
