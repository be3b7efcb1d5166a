-- ===== src/Server/QueryApi/Answers.antt =====
-- What the handlers of internal/server/query_api.go answer, on every branch.
use screwlogger.Base.{ℕ, ◌≡◌, ◌≢◌, ◌⊎◌, Option, none, some, [], map, take, Text, codes, ℤ}
use screwlogger.Server.Store.{Store}
use screwlogger.Server.Query.{rng, order_by_ts, active_ratio, dwell_usage}
use screwlogger.Server.Sessions.{HttpResult, failed, succeeded}
use screwlogger.Server.Devices.{list_devices, device_response}
use screwlogger.Server.QueryApi.Params.{IsWindow, IsLimit, IsGrouping}
use screwlogger.Server.QueryApi.{
  Params, QueryRequest, devices_query, usage_query, active_ratio_query, events_query, QueryReply,
  devices_reply, usage_reply, ratio_reply, events_reply, query_rows,
}

module _ (parse_int : Text → Option ℤ) (now : ℕ) (s : Store) where
  -- What an answer says: the result for the parameters, or 400 for a reason.
  abbrev pub IsAnswer : QueryRequest → HttpResult QueryReply → Type 0
  IsAnswer (usage_query q) (succeeded (usage_reply group_by buckets)) =
      (from : ℕ) × (to : ℕ) × IsWindow parse_int now q (some (from, to))
      × IsGrouping parse_int now (q (codes "group_by")) group_by
      × (dwell_usage (q (codes "device")) from to group_by (query_rows s) ≡ some buckets)
  IsAnswer (active_ratio_query q) (succeeded (ratio_reply ratio)) =
      (from : ℕ) × (to : ℕ) × IsWindow parse_int now q (some (from, to))
      × (ratio ≡ active_ratio (q (codes "device")) from to (query_rows s))
  IsAnswer (events_query q) (succeeded (events_reply rows)) =
      (from : ℕ) × (to : ℕ) × (limit : ℕ) × IsWindow parse_int now q (some (from, to))
      × IsLimit parse_int now (q (codes "limit")) limit
      × (rows ≡ take limit (order_by_ts (rng (q (codes "device")) from to (query_rows s))))
  IsAnswer devices_query (succeeded (devices_reply rows)) =
      rows ≡ map (device_response now) (list_devices s.devices)
  IsAnswer devices_query (failed status message) = ⊥
  IsAnswer (usage_query q) (failed status message) =
      (status ≡ 400)
      × (IsWindow parse_int now q none
          ⊎ ((q (codes "group_by") ≢ [])
              × (q (codes "group_by") ≢ codes "category")
              × (q (codes "group_by") ≢ codes "app")))
  IsAnswer (active_ratio_query q) (failed status message) =
      (status ≡ 400) × IsWindow parse_int now q none
  IsAnswer (events_query q) (failed status message) =
      (status ≡ 400)
      × (IsWindow parse_int now q none
          ⊎ ((limit : ℕ) → IsLimit parse_int now (q (codes "limit")) limit → ⊥))
  IsAnswer _ (succeeded _) = ⊥
