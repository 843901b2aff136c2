-- ===== src/Tests/Logging.antt =====
-- A short history of requests.
use gptload_rs.Prelude.{
  ℕ, ◌+◌, ◌-◌, ◌%◌, ◌≡◌, refl, min, none, some, List, [], ◌∷◌, take, reverse, arith,
}
use gptload_rs.Prelude.Text.{codes}
use gptload_rs.Requests.{
  RequestLogEntry, MetricsBucket, RequestMetrics, RequestsLog, classify_status, update_bucket,
  update, new_log, recent,
}
use gptload_rs.Requests.Buckets.{one, nil, IsValid}
use gptload_rs.Requests.Update.{
  IsCounted, IsValidMetrics, update_bucket_lem, classify_status_one, update-IsValidMetrics,
}
use gptload_rs.Requests.Log.{record_all, recent-record_all}

abbrev entry : ℕ → ℕ → RequestLogEntry
entry ts_ms status = record {
  ts_ms = ts_ms;
  client_ip = codes "::1";
  method = codes "GET";
  path = codes "/v1/models";
  model = none;
  upstream_id = none;
  status = status;
  latency_ms = 3;
  req_bytes = 0;
  resp_bytes = 9;
  prompt_tokens = none;
  completion_tokens = none;
  total_tokens = none;
}

abbrev minute_bucket : MetricsBucket
minute_bucket = record { ts_ms = 120_000; total = 1; success = 1; failure = 0; ignored = 0 }

bucket-IsValid : IsValid 60_000 60 (minute_bucket ∷ [])
bucket-IsValid = record {
  series = one minute_bucket (omega arith);
  tallied = (omega arith, tt);
  fits = omega arith;
}

update_bucket_lem_example :
    (r : List MetricsBucket) × (update_bucket (minute_bucket ∷ []) 310_000 60_000 60 0 1 0 ≡ some r)
    × IsCounted 60_000 60 0 1 0 (310_000 - 310_000 % 60_000) (minute_bucket ∷ []) r
update_bucket_lem_example =
    update_bucket_lem (minute_bucket ∷ []) 310_000 60_000 60 0 1 0 (omega arith) (omega arith)
      (omega arith) refl bucket-IsValid

abbrev no_metrics : RequestMetrics
no_metrics = record { by_minute = []; by_hour = []; by_day = [] }

no_metrics-IsValid : IsValidMetrics no_metrics
no_metrics-IsValid = record {
  minutes = record { series = nil; tallied = tt; fits = omega arith };
  hours = record { series = nil; tallied = tt; fits = omega arith };
  days = record { series = nil; tallied = tt; fits = omega arith };
}

update-IsValidMetrics_example :
    (m : RequestMetrics) × (update no_metrics (entry 310_000 404) ≡ some m) × IsValidMetrics m
update-IsValidMetrics_example =
    update-IsValidMetrics no_metrics (entry 310_000 404) (omega arith) no_metrics-IsValid

classify_status_one_example :
    let (success, failure, ignored) = classify_status 404 in success + failure + ignored ≡ 1
classify_status_one_example = classify_status_one 404

abbrev history : List RequestLogEntry
history = entry 310_000 200 ∷ entry 100_000 500 ∷ entry 400_000 404 ∷ []

recent-record_all_example :
    (log : RequestsLog) × (record_all (new_log 2) history ≡ some log)
    × (recent log 5 ≡ take (min 5 2) (reverse history))
    × IsValidMetrics log.metrics
recent-record_all_example =
    recent-record_all 2 5 history (omega arith, (omega arith, (omega arith, tt)))
