-- ===== src/Requests/Update.antt =====
-- Counting a request keeps the series of buckets valid and always comes to an end.
use gptload_rs.Prelude.{
  ℕ, ◌+◌, ◌-◌, ◌%◌, ◌≤◌, ◌<◌, ◌≡◌, refl, ◌∙◌, Bool-cases, inl, inr, none, some, Option-cases, List,
  [], ◌∷◌, ltb, if◌then◌else◌, arith, All,
}
use gptload_rs.Prelude.Words.{u64_max, saturating_add}
use gptload_rs.Requests.{
  RequestLogEntry, MetricsBucket, RequestMetrics, classify_status, empty_bucket, back, modify_back,
  pop_to, open_bucket, tally, update_bucket, update,
}
use gptload_rs.Requests.Buckets.{
  IsSeries, one, IsTallied, IsValid, fill_lem, IsSeries-modify, IsSeries-pop, IsTallied-modify,
  IsTallied-pop, back-modify, back-pop, pop_to-length, start_aligned, back_of_none,
}

-- The bucket that a request at `start` is counted in: the last one if `start` is not behind it, and
-- otherwise a new one.
abbrev pub newest : List MetricsBucket → ℕ → MetricsBucket
newest l start = elim (back l) [
  | none ↦ empty_bucket start
  | some b ↦ if ltb b.ts_ms start then empty_bucket start else b
]

record IsOpen (step_ms start : ℕ) (l r : List MetricsBucket) : Type 0 where
  series : IsSeries step_ms r
  tallied : All IsTallied r
  at_end : back r ≡ some (newest l start)

open_bucket_lem :
    (step_ms start : ℕ) (l : List MetricsBucket)
    → 0 < step_ms
    → start % step_ms ≡ 0
    → start + step_ms ≤ u64_max
    → IsSeries step_ms l
    → All IsTallied l
    → (r : List MetricsBucket) × (open_bucket step_ms start l ≡ some r) × IsOpen step_ms start l r
unfolding open_bucket back
open_bucket_lem step_ms start l pos al room s t = elim (Option-cases (back l)) [
  | inl empty ↦
      let bare : l ≡ [] = back_of_none l empty in
      (
        empty_bucket start ∷ [],
        rw bare (ground arith),
        record { series = one _ al; tallied = (omega arith, tt); at_end = ground arith },
      )
  | inr (b, e) ↦ elim (Bool-cases (ltb b.ts_ms start)) [
    | inr old ↦ (l, ground arith, record { series = s; tallied = t; at_end = ground arith })
    | inl new ↦
        let step : saturating_add b.ts_ms step_ms ≡ b.ts_ms + step_ms = ground arith in
        let (r, filled, opened) =
          fill_lem (start - b.ts_ms + 1) step_ms start (saturating_add b.ts_ms step_ms) l b s t e
            step pos al (ground arith) room (omega arith) in
        (
          r,
          ground arith,
          record {
            series = opened.series;
            tallied = opened.tallied;
            at_end = ground (arith, opened.at_end, opened.counted);
          },
        )
  ]
]

tally_kept :
    (success failure ignored : ℕ) (b : MetricsBucket)
    → success + failure + ignored ≡ 1
    → IsTallied b
    → IsTallied (tally success failure ignored b)
tally_kept success failure ignored b one_of t = omega arith

-- What counting a request in a series gives.
pub record IsCounted (step_ms limit success failure ignored start : ℕ) (l r : List MetricsBucket)
    : Type 0 where
  pub valid : IsValid step_ms limit r
  pub last : back r ≡ some (tally success failure ignored (newest l start))

-- `update_bucket` comes to an end, and it keeps a series valid: consecutive buckets one step apart
-- and aligned to it, at most `limit` of them, each with a total that is the sum of its three counts.
-- The request is counted in the last bucket, which is the bucket of its time or, if the series is
-- already past that time, the newest there is. The time is at least a step away from the end of a
-- u64.
pub update_bucket_lem :
    (l : List MetricsBucket) (ts_ms step_ms limit success failure ignored : ℕ)
    → 0 < step_ms
    → 0 < limit
    → ts_ms + step_ms ≤ u64_max
    → success + failure + ignored ≡ 1
    → IsValid step_ms limit l
    → (r : List MetricsBucket) × (update_bucket l ts_ms step_ms limit success failure ignored
        ≡ some r)
      × IsCounted step_ms limit success failure ignored (ts_ms - ts_ms % step_ms) l r
unfolding update_bucket
update_bucket_lem l ts_ms step_ms limit success failure ignored pos cap_pos room one_of v =
    let start = ts_ms - ts_ms % step_ms in
    let (o, opened, h) =
      open_bucket_lem step_ms start l pos (start_aligned ts_ms step_ms) (omega arith) v.series
        v.tallied in
    let f = tally success failure ignored in
    let r = modify_back f o in
    (
      pop_to limit r,
      rw (opened, update_bucket) refl,
      record {
        valid = record {
          series = IsSeries-pop step_ms limit r (IsSeries-modify f (λ b. refl) step_ms o h.series);
          tallied =
              IsTallied-pop limit r
                (IsTallied-modify f o (λ b. tally_kept success failure ignored b one_of) h.tallied);
          fits = pop_to-length limit r;
        };
        last = back-pop limit r cap_pos ∙ back-modify f o h.at_end;
      },
    )

-- Every status is a success, a failure or ignored, and only one of these.
pub classify_status_one :
    (status : ℕ)
    → let (success, failure, ignored) = classify_status status in success + failure + ignored ≡ 1
unfolding classify_status
classify_status_one status = ground arith

-- The three series of a `RequestMetrics`.
pub record IsValidMetrics (m : RequestMetrics) : Type 0 where
  pub minutes : IsValid 60_000 60 m.by_minute
  pub hours : IsValid 3_600_000 48 m.by_hour
  pub days : IsValid 86_400_000 30 m.by_day

-- `RequestMetrics::update` comes to an end and keeps the three series valid.
pub update-IsValidMetrics :
    (m : RequestMetrics) (entry : RequestLogEntry)
    → entry.ts_ms + 86_400_000 ≤ u64_max
    → IsValidMetrics m
    → (m' : RequestMetrics) × (update m entry ≡ some m') × IsValidMetrics m'
unfolding update
update-IsValidMetrics m entry room v =
    let (success, failure, ignored) = classify_status entry.status in
    let one_of = classify_status_one entry.status in
    let ts = entry.ts_ms in
    let (a, ea, ha) =
      update_bucket_lem m.by_minute ts 60_000 60 success failure ignored (omega arith) (omega arith)
        (omega arith) one_of v.minutes in
    let (b, eb, hb) =
      update_bucket_lem m.by_hour ts 3_600_000 48 success failure ignored (omega arith)
        (omega arith) (omega arith) one_of v.hours in
    let (c, ec, hc) =
      update_bucket_lem m.by_day ts 86_400_000 30 success failure ignored (omega arith)
        (omega arith) room one_of v.days in
    (
      record { by_minute = a; by_hour = b; by_day = c },
      rw (ea, eb, ec, update) refl,
      record { minutes = ha.valid; hours = hb.valid; days = hc.valid },
    )
