-- ===== src/Requests/Log.antt =====
-- The request log as the last entries of a history.
use mathlib.Core.List.{reverse-append, append-nil, append_assoc}
use gptload_rs.Requests.Buckets.{nil}
use gptload_rs.Prelude.{
  Bool-cases, drop-append, drop-drop, take_all, take-append_left, take-take, length-reverse, ℕ, suc,
  ◌+◌, ◌-◌, ◌≤◌, min, ◌≡◌, refl, sym, ◌∙◌, ap, Option, none, some, inl, inr, List, [], ◌∷◌, ◌++◌,
  All, length, take, drop, reverse, length-append, length-drop, take-append-drop, ltb, arith,
}
use gptload_rs.Prelude.Words.{u64_max}
use gptload_rs.Requests.{RequestLogEntry, RequestsLog, pop_to, new_log, record_entry, recent}
use gptload_rs.Requests.Update.{IsValidMetrics, update-IsValidMetrics}

-- Recording a history, oldest entry first.
abbrev pub record_all : RequestsLog → List RequestLogEntry → Option RequestsLog
record_all log [] = some log
record_all log (e ∷ es) = elim (record_entry log e) [ none ↦ none | some log' ↦ record_all log' es ]

-- The last `limit` entries.
abbrev pub last_of {ℓ} : {A : Type ℓ} → ℕ → List A → List A
last_of limit l = drop (length l - limit) l

pop_to-eq-last_of {ℓ} : {A : Type ℓ} (limit : ℕ) (l : List A) → pop_to limit l ≡ last_of limit l
unfolding pop_to
pop_to-eq-last_of limit [] = ground arith
pop_to-eq-last_of limit (x ∷ l) = elim (Bool-cases (ltb limit (length (x ∷ l)))) [
  | inl long ↦
      let e : suc (length l) - limit ≡ suc (length l - limit) = ground arith in
      rw (long, e) (pop_to-eq-last_of limit l)
  | inr short ↦ let e : suc (length l) - limit ≡ 0 = ground arith in rw (short, e)
]

last_of-snoc {ℓ} :
    {A : Type ℓ} (limit : ℕ) (l : List A) (x : A)
    → last_of limit (last_of limit l ++ x ∷ []) ≡ last_of limit (l ++ x ∷ [])
last_of-snoc limit l x =
    let k = length l - limit in
    let front = drop-append k l (x ∷ []) (omega arith) in
    let long = length-drop k (l ++ x ∷ []) in
    let whole = length-append l (x ∷ []) in
    rw (← front) (drop-drop k _ (l ++ x ∷ []) ∙ ap (λ n. drop n (l ++ x ∷ [])) (omega arith))

-- Newest first, the last `limit` entries are the first `limit` of the reversed history.
reverse-last_of {ℓ} :
    {A : Type ℓ} (limit : ℕ) (l : List A) → reverse (last_of limit l) ≡ take limit (reverse l)
reverse-last_of limit l =
    let k = length l - limit in
    elim (Bool-cases (ltb limit (length l))) [
      | inr short ↦
          let e : length l - limit ≡ 0 = ground arith in
          rw e (sym (take_all limit (reverse l) (ground (arith, length-reverse l))))
      | inl long ↦
          let front = length-reverse (drop k l) in
          let size = length-drop k l in
          sym (
            ap (take limit)
              (ap reverse (sym (take-append-drop k l)) ∙ reverse-append (take k l) (drop k l))
            ∙ take-append_left limit (reverse (drop k l)) (reverse (take k l)) (ground arith))
    ]

-- A log whose metrics are valid, after the history `h`.
record Holds (limit : ℕ) (h : List RequestLogEntry) (log : RequestsLog) : Type 0 where
  kept : log.entries ≡ last_of limit h
  size : log.cap ≡ limit
  metrics : IsValidMetrics log.metrics

Holds-new : (limit : ℕ) → Holds limit [] (new_log limit)
Holds-new limit = record {
  kept = ground arith;
  size = refl;
  metrics = record {
    minutes = record { series = nil; tallied = tt; fits = omega arith };
    hours = record { series = nil; tallied = tt; fits = omega arith };
    days = record { series = nil; tallied = tt; fits = omega arith };
  };
}

abbrev InTime : RequestLogEntry → Type 0
InTime e = e.ts_ms + 86_400_000 ≤ u64_max

record_entry-Holds :
    (limit : ℕ) (h : List RequestLogEntry) (log : RequestsLog) (e : RequestLogEntry)
    → InTime e
    → Holds limit h log
    → (log' : RequestsLog) × (record_entry log e ≡ some log') × Holds limit (h ++ e ∷ []) log'
unfolding record_entry
record_entry-Holds limit h log e room v =
    let (m, updated, valid) = update-IsValidMetrics log.metrics e room v.metrics in
    (
      record log { entries = pop_to log.cap (log.entries ++ e ∷ []); metrics = m },
      rw (updated, record_entry) refl,
      record {
        kept =
            pop_to-eq-last_of log.cap (log.entries ++ e ∷ [])
            ∙ (λ i. last_of (v.size i) (v.kept i ++ e ∷ []))
            ∙ last_of-snoc limit h e;
        size = v.size;
        metrics = valid;
      },
    )

record_all-Holds :
    (limit : ℕ) (h es : List RequestLogEntry) (log : RequestsLog)
    → All InTime es
    → Holds limit h log
    → (log' : RequestsLog) × (record_all log es ≡ some log') × Holds limit (h ++ es) log'
record_all-Holds limit h [] log room v = (log, refl, rw (append-nil h) v)
record_all-Holds limit h (e ∷ es) log room v =
    let (log1, one, v1) = record_entry-Holds limit h log e room.0 v in
    let (log2, rest, v2) = record_all-Holds limit (h ++ e ∷ []) es log1 room.1 v1 in
    (log2, rw (one, record_all) rest, rw (append_assoc h (e ∷ []) es) at v2)

-- Recording a history in a fresh log comes to an end, whatever the history; then `recent` returns
-- the newest entries of the history, newest first, as many as asked for and at most the cap. The
-- entries' times are a day away from the end of a u64.
pub recent-record_all :
    (limit n : ℕ) (es : List RequestLogEntry)
    → All (λ e. e.ts_ms + 86_400_000 ≤ u64_max) es
    → (log : RequestsLog) × (record_all (new_log limit) es ≡ some log)
      × (recent log n ≡ take (min n limit) (reverse es))
      × IsValidMetrics log.metrics
unfolding recent
recent-record_all limit n es room =
    let (log, done, v) = record_all-Holds limit [] es (new_log limit) room (Holds-new limit) in
    (
      log,
      done,
      ap (λ l. take n (reverse l)) v.kept
          ∙ ap (take n) (reverse-last_of limit es)
          ∙ take-take n limit (reverse es),
      v.metrics,
    )
