-- ===== src/Requests.antt =====
-- `RequestLogEntry`, `RequestMetrics` and `RequestsLog` of src/state.rs: the last requests, and
-- counts of them by minute, hour and day. A `VecDeque` is a list with its front first.
pub mod Buckets
pub mod Update
pub mod Log
use gptload_rs.Prelude.{
  ℕ, zero, suc, ◌+◌, ◌-◌, ◌%◌, Bool, ◌&&◌, Option, none, some, List, [], ◌∷◌, ◌++◌, reverse, length,
  take, leb, ltb, ◌==◌, if◌then◌else◌,
}
use gptload_rs.Prelude.Words.{add64, saturating_add}
use gptload_rs.Prelude.Text.{Str, codes, str_eq}

pub record RequestLogEntry : Type 0 where
  pub ts_ms : ℕ
  pub client_ip : Str
  pub method : Str
  pub path : Str
  pub model : Option Str
  pub upstream_id : Option Str
  pub status : ℕ
  pub latency_ms : ℕ
  pub req_bytes : ℕ
  pub resp_bytes : ℕ
  pub prompt_tokens : Option ℕ
  pub completion_tokens : Option ℕ
  pub total_tokens : Option ℕ

pub record MetricsBucket : Type 0 where
  pub ts_ms : ℕ
  pub total : ℕ
  pub success : ℕ
  pub failure : ℕ
  pub ignored : ℕ

pub data MetricsWindow : Type 0 where
  minute hour day : MetricsWindow

-- `MetricsWindow::from_str` and `as_str`
unfoldable pub from_str : Str → MetricsWindow
from_str s =
    if str_eq s (codes "hour") then hour else if str_eq s (codes "day") then day else minute

unfoldable pub as_str : MetricsWindow → Str
as_str minute = codes "minute"
as_str hour = codes "hour"
as_str day = codes "day"

-- Success, failure and ignored: exactly one of them is one.
unfoldable pub classify_status : ℕ → ℕ × ℕ × ℕ
classify_status status =
    if leb 200 status && ltb status 300
    then (1, 0, 0)
    else if status == 404
    then (0, 0, 1)
    else (0, 1, 0)

abbrev pub empty_bucket : ℕ → MetricsBucket
empty_bucket start = record { ts_ms = start; total = 0; success = 0; failure = 0; ignored = 0 }

module _ {ℓ} {A : Type ℓ} where
  -- `back`, and a change of it in place
  unfoldable pub back : List A → Option A
  back [] = none
  back (x ∷ []) = some x
  back (x ∷ y ∷ l) = back (y ∷ l)

  unfoldable pub modify_back : (A → A) → List A → List A
  modify_back f [] = []
  modify_back f (x ∷ []) = f x ∷ []
  modify_back f (x ∷ y ∷ l) = x ∷ modify_back f (y ∷ l)

  -- `while q.len() > limit { q.pop_front(); }`
  unfoldable pub pop_to : ℕ → List A → List A
  pop_to limit [] = []
  pop_to limit (x ∷ l) = if ltb limit (length (x ∷ l)) then pop_to limit l else x ∷ l

-- The loop that appends an empty bucket for each step up to `bucket_start`; `none` when the fuel
-- runs out.
unfoldable pub fill : ℕ → ℕ → ℕ → ℕ → List MetricsBucket → Option (List MetricsBucket)
fill zero step_ms bucket_start next_start buckets = none
fill (suc fuel) step_ms bucket_start next_start buckets =
    let more =
      fill fuel step_ms bucket_start (saturating_add next_start step_ms)
        (buckets ++ empty_bucket next_start ∷ []) in
    if leb next_start bucket_start then more else some buckets

-- `if buckets.is_empty() { … } else { … }`: afterwards a bucket for `bucket_start` is there. One
-- more round than milliseconds is enough fuel.
unfoldable pub open_bucket : ℕ → ℕ → List MetricsBucket → Option (List MetricsBucket)
unfolding back fill
open_bucket step_ms bucket_start buckets = elim (back buckets) [
  | none ↦ some (buckets ++ empty_bucket bucket_start ∷ [])
  | some last ↦
      let filled =
        fill (bucket_start - last.ts_ms + 1) step_ms bucket_start
          (saturating_add last.ts_ms step_ms) buckets in
      if ltb last.ts_ms bucket_start then filled else some buckets
]

abbrev pub tally : ℕ → ℕ → ℕ → MetricsBucket → MetricsBucket
tally success failure ignored b = record b {
  total = add64 b.total 1;
  success = add64 b.success success;
  failure = add64 b.failure failure;
  ignored = add64 b.ignored ignored;
}

unfoldable pub update_bucket :
    List MetricsBucket → ℕ → ℕ → ℕ → ℕ → ℕ → ℕ → Option (List MetricsBucket)
unfolding open_bucket modify_back pop_to
update_bucket buckets ts_ms step_ms limit success failure ignored =
    let bucket_start = ts_ms - ts_ms % step_ms in
    elim (open_bucket step_ms bucket_start buckets) [
      | none ↦ none
      | some opened ↦ some (pop_to limit (modify_back (tally success failure ignored) opened))
    ]

pub record RequestMetrics : Type 0 where
  pub by_minute : List MetricsBucket
  pub by_hour : List MetricsBucket
  pub by_day : List MetricsBucket

unfoldable pub update : RequestMetrics → RequestLogEntry → Option RequestMetrics
unfolding update_bucket classify_status
update m entry =
    let (success, failure, ignored) = classify_status entry.status in
    let ts_ms = entry.ts_ms in
    elim (update_bucket m.by_minute ts_ms 60_000 60 success failure ignored) [
      | none ↦ none
      | some by_minute ↦ elim (update_bucket m.by_hour ts_ms 3_600_000 48 success failure ignored) [
        | none ↦ none
        | some by_hour ↦ elim (update_bucket m.by_day ts_ms 86_400_000 30 success failure ignored) [
          | none ↦ none
          | some by_day ↦
              some (record { by_minute = by_minute; by_hour = by_hour; by_day = by_day })
        ]
      ]
    ]

unfoldable pub snapshot : RequestMetrics → MetricsWindow → List MetricsBucket
snapshot m minute = m.by_minute
snapshot m hour = m.by_hour
snapshot m day = m.by_day

-- `RequestsLog`. Its sender hands each entry to the task that appends to the log file, and drops
-- it when the channel is full; nothing here depends on it.
pub record RequestsLog : Type 0 where
  pub entries : List RequestLogEntry
  pub metrics : RequestMetrics
  pub cap : ℕ

abbrev pub new_log : ℕ → RequestsLog
new_log limit = record {
  entries = [];
  metrics = record { by_minute = []; by_hour = []; by_day = [] };
  cap = limit;
}

unfoldable pub record_entry : RequestsLog → RequestLogEntry → Option RequestsLog
unfolding update pop_to
record_entry log entry =
    let entries = pop_to log.cap (log.entries ++ entry ∷ []) in
    elim (update log.metrics entry) [
      | none ↦ none
      | some metrics ↦ some (record log { entries = entries; metrics = metrics })
    ]

unfoldable pub recent : RequestsLog → ℕ → List RequestLogEntry
recent log limit = take limit (reverse log.entries)
