-- ===== src/Proxy/Server/Guards.antt =====
-- Who gets past the guards of `handle`, and what the counters show afterwards.
use gptload_rs.Prelude.{
  ℕ, ◌+◌, ◌<◌, ◌≡◌, refl, ap, Bool-cases, inl, inr, ◌&&◌, ◌||◌, Option-cases, [], ◌∷◌, ◌++◌, arith,
}
use gptload_rs.Prelude.Words.{u64_max, add64, sub64}
use gptload_rs.Prelude.Text.{starts_with, codes, str_eq}
use gptload_rs.State.Defs.{Selected, Stats}
use gptload_rs.Requests.{RequestLogEntry}
use gptload_rs.Proxy.Counts.{forward-KeepsRequests}
use gptload_rs.Proxy.Retry.{Attempt, forward}
use gptload_rs.Proxy.Server.{
  body_too_large, body_read_error, body, logged_status, ok_body, admin, Server, Clock, Denied,
  Admission, denied, admitted, Incoming, Answer, turned_away, admit, answer_admission,
  answer_request, serve, ReadBody, record_latency, record_request, forward_logged, handle,
}

-- A request that is let past the guards counts as one.
abbrev pub requests_of : Answer → ℕ
requests_of ok_body = 0
requests_of admin = 0
requests_of (turned_away _) = 0
requests_of _ = 1

forward_logged-requests :
    (upstream_does : ℕ → Selected → Attempt) (now_ms : ℕ) (clock : Clock) (req : Incoming)
    (read : ReadBody) (s : Server)
    → let (answer, s') = forward_logged upstream_does now_ms clock req read s in
      (requests_of answer ≡ 1)
      × (s'.router.stats.requests_inflight ≡ s.router.stats.requests_inflight)
      × (s'.router.stats.requests_total ≡ s.router.stats.requests_total)
unfolding forward_logged record_request
forward_logged-requests upstream_does now_ms clock req body_too_large s = (refl, refl, refl)
forward_logged-requests upstream_does now_ms clock req body_read_error s = (refl, refl, refl)
forward_logged-requests upstream_does now_ms clock req (body model req_bytes) s =
    let kept = forward-KeepsRequests upstream_does model now_ms s.router in
    elim (Option-cases (logged_status (forward upstream_does model now_ms s.router).0)) [
      | inl e ↦ ground (arith, e, kept)
      | inr (status, e) ↦ ground (arith, e, kept)
    ]

answer_request-requests :
    (upstream_does : ℕ → Selected → Attempt) (now_ms : ℕ) (clock : Clock) (models_bytes : ℕ)
    (req : Incoming) (s : Server)
    → let (answer, s') = answer_request upstream_does now_ms clock models_bytes req s in
      (requests_of answer ≡ 1)
      × (s'.router.stats.requests_inflight ≡ s.router.stats.requests_inflight)
      × (s'.router.stats.requests_total ≡ s.router.stats.requests_total)
unfolding answer_request record_request
answer_request-requests upstream_does now_ms clock models_bytes req s =
    let run = forward_logged-requests upstream_does now_ms clock req req.read s in
    let get = str_eq req.method (codes "GET") in
    elim (Bool-cases
      (get && (str_eq req.path (codes "/v1/models") || str_eq req.path (codes "/v1/models/")))) [
        | inl e ↦ rw e (refl, refl, refl)
        | inr e ↦ rw e run
      ]

-- The counters around a request, for whatever happens in between.
around_lem :
    (n total n' total' : ℕ)
    → n < u64_max
    → total < u64_max
    → n' ≡ add64 n 1
    → total' ≡ add64 total 1
    → (sub64 n' 1 ≡ n) × (total' ≡ total + 1)
around_lem n total n' total' h g a b = (omega (arith, a), omega (arith, b))

serve-requests :
    (upstream_does : ℕ → Selected → Attempt) (now_ms : ℕ) (clock : Clock)
    (models_bytes latency_ns : ℕ) (req : Incoming) (s : Server)
    → s.router.stats.requests_inflight < u64_max
    → s.router.stats.requests_total < u64_max
    → let (answer, s') = serve upstream_does now_ms clock models_bytes latency_ns req s in
      (s'.router.stats.requests_inflight ≡ s.router.stats.requests_inflight)
      × (s'.router.stats.requests_total ≡ s.router.stats.requests_total + 1)
unfolding serve record_latency
serve-requests upstream_does now_ms clock models_bytes latency_ns req s h g =
    let start = s.router.stats in
    let counted : Stats = record start {
      requests_total = add64 start.requests_total 1;
      requests_inflight = add64 start.requests_inflight 1;
    } in
    let s1 : Server = record s { router = record s.router { stats = counted } } in
    let (_, a, b) = answer_request-requests upstream_does now_ms clock models_bytes req s1 in
    around_lem start.requests_inflight start.requests_total _ _ h g a b

serve-answer :
    (upstream_does : ℕ → Selected → Attempt) (now_ms : ℕ) (clock : Clock)
    (models_bytes latency_ns : ℕ) (req : Incoming) (s : Server)
    → requests_of (serve upstream_does now_ms clock models_bytes latency_ns req s).0 ≡ 1
unfolding serve
serve-answer upstream_does now_ms clock models_bytes latency_ns req s =
    (answer_request-requests upstream_does now_ms clock models_bytes req _).0

admission-requests :
    (upstream_does : ℕ → Selected → Attempt) (now_ms : ℕ) (clock : Clock)
    (models_bytes latency_ns : ℕ) (req : Incoming) (s : Server) (a : Admission)
    → s.router.stats.requests_inflight < u64_max
    → s.router.stats.requests_total < u64_max
    → let (answer, s') =
        answer_admission upstream_does now_ms clock models_bytes latency_ns req s a in
      (s'.router.stats.requests_inflight ≡ s.router.stats.requests_inflight)
      × (s'.router.stats.requests_total ≡ s.router.stats.requests_total + requests_of answer)
unfolding answer_admission record_request
admission-requests upstream_does now_ms clock models_bytes latency_ns req s (denied why) h g =
    (refl, omega arith)
admission-requests upstream_does now_ms clock models_bytes latency_ns req s (admitted k) h g =
    let (a, b) = serve-requests upstream_does now_ms clock models_bytes latency_ns req s h g in
    let one = serve-answer upstream_does now_ms clock models_bytes latency_ns req s in
    (a, omega (arith, b, one))

-- What is known of a state after a request was turned away.
abbrev pub IsUntouched : Server → Server → Type 0
IsUntouched s s' =
    (s'.router ≡ s.router)
    × (s'.billing ≡ s.billing)
    × ((entry : RequestLogEntry) × (s'.logged ≡ s.logged ++ entry ∷ []) × (entry.status ≡ 401))

admission-IsUntouched :
    (upstream_does : ℕ → Selected → Attempt) (now_ms : ℕ) (clock : Clock)
    (models_bytes latency_ns : ℕ) (req : Incoming) (s : Server) (a : Admission) (why : Denied)
    → (answer_admission upstream_does now_ms clock models_bytes latency_ns req s a).0
      ≡ turned_away why
    → (a ≡ denied why)
      × IsUntouched s
          (answer_admission upstream_does now_ms clock models_bytes latency_ns req s a).1
unfolding answer_admission record_request
admission-IsUntouched upstream_does now_ms clock models_bytes latency_ns req s (denied d) why h =
    (ground (arith, h), (refl, refl, (_, refl, refl)))
admission-IsUntouched upstream_does now_ms clock models_bytes latency_ns req s (admitted k) why h =
    let one = serve-answer upstream_does now_ms clock models_bytes latency_ns req s in
    absurd (omega (arith, one, ap requests_of h))

-- `handle` counts a request once if it gets past the guards, and not at all otherwise, and when it
-- returns the number of requests in flight is what it was. The counters may not be at the end of
-- their range.
pub handle-requests :
    (upstream_does : ℕ → Selected → Attempt) (now_ms : ℕ) (clock : Clock)
    (models_bytes latency_ns : ℕ) (req : Incoming) (s : Server)
    → s.router.stats.requests_inflight < u64_max
    → s.router.stats.requests_total < u64_max
    → let (answer, s') = handle upstream_does now_ms clock models_bytes latency_ns req s in
      (s'.router.stats.requests_inflight ≡ s.router.stats.requests_inflight)
      × (s'.router.stats.requests_total ≡ s.router.stats.requests_total + requests_of answer)
unfolding handle
handle-requests upstream_does now_ms clock models_bytes latency_ns req s h g =
    let run =
      admission-requests upstream_does now_ms clock models_bytes latency_ns req s
        (admit req.headers s) h g in
    let health = str_eq req.method (codes "GET") && str_eq req.path (codes "/health") in
    elim (Bool-cases health) [
      | inl e ↦ rw e (refl, omega arith)
      | inr e ↦ elim (Bool-cases (starts_with req.path (codes "/admin"))) [
        | inl f ↦ rw (e, f) (refl, omega arith)
        | inr f ↦ rw (e, f) run
      ]
    ]

-- A request that is turned away is so for the reason that the guards give, changes neither the
-- router nor a balance, and is logged once, with status 401.
pub handle-turned_away :
    (upstream_does : ℕ → Selected → Attempt) (now_ms : ℕ) (clock : Clock)
    (models_bytes latency_ns : ℕ) (req : Incoming) (s : Server) (why : Denied)
    → (handle upstream_does now_ms clock models_bytes latency_ns req s).0 ≡ turned_away why
    → (admit req.headers s ≡ denied why)
      × IsUntouched s (handle upstream_does now_ms clock models_bytes latency_ns req s).1
unfolding handle
handle-turned_away upstream_does now_ms clock models_bytes latency_ns req s why h =
    let health = str_eq req.method (codes "GET") && str_eq req.path (codes "/health") in
    elim (Bool-cases health) [
      | inl e ↦ absurd (ground (arith, h, e))
      | inr e ↦ elim (Bool-cases (starts_with req.path (codes "/admin"))) [
        | inl f ↦ absurd (ground (arith, h, e, f))
        | inr f ↦
            let run =
              admission-IsUntouched upstream_does now_ms clock models_bytes latency_ns req s
                (admit req.headers s) why in
            rw (e, f) (run (rw (e, f) at h))
      ]
    ]
