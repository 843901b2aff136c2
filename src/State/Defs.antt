-- ===== src/State/Defs.antt =====
-- The records of state.rs, and writes to their cells.
use gptload_rs.Prelude.{ℕ, ◌≡◌, ◌≢◌, Option, List, ◌==◌, if◌then◌else◌, arith}
use gptload_rs.Prelude.Text.{Str}
use gptload_rs.Config.{BanConfig}

-- `KeyState`; the header value is held as its text.
pub record KeyState : Type 0 where
  pub key : Str
  pub auth_header : Str
  pub cell : ℕ

pub record KeyCell : Type 0 where
  pub cooldown_until_ms : ℕ
  pub fail_streak : ℕ

pub record UpstreamStats : Type 0 where
  pub selected_total : ℕ
  pub responses_2xx : ℕ
  pub responses_3xx : ℕ
  pub responses_4xx : ℕ
  pub responses_5xx : ℕ
  pub errors_timeout : ℕ
  pub errors_network : ℕ

-- `Upstream`: the fields that are fixed when it is built.
pub record Upstream : Type 0 where
  pub id : Str
  pub base_url : Str
  pub base_scheme : Str
  pub base_authority : Str
  pub base_path : Str
  pub weight : ℕ
  pub cell : ℕ

-- `Upstream`: the fields that change; `models` is a set.
pub record UpstreamCell : Type 0 where
  pub keys : List KeyState
  pub key_rr : ℕ
  pub models : List Str
  pub cooldown_until_ms : ℕ
  pub fail_streak : ℕ
  pub stats : UpstreamStats

-- The cells from `next_upstream` and `next_key` on are free.
pub record Memory : Type 0 where
  pub upstream_at : ℕ → UpstreamCell
  pub key_at : ℕ → KeyCell
  pub next_upstream : ℕ
  pub next_key : ℕ

pub record Stats : Type 0 where
  pub requests_total : ℕ
  pub requests_inflight : ℕ
  pub upstream_selected_total : ℕ
  pub responses_2xx : ℕ
  pub responses_3xx : ℕ
  pub responses_4xx : ℕ
  pub responses_5xx : ℕ
  pub errors_timeout : ℕ
  pub errors_network : ℕ
  pub latency_ns_total : ℕ
  pub latency_count : ℕ
  pub latency_ns_max : ℕ

-- `upstream_index` maps an id to a position in `upstreams`; `schedule` holds such positions.
pub record RouterSnapshot : Type 0 where
  pub upstreams : List Upstream
  pub upstream_index : List (Str × ℕ)
  pub schedule : List ℕ

pub record RouterState : Type 0 where
  pub max_retries : ℕ
  pub retry_status_codes : List ℕ
  pub ban : BanConfig
  pub proxy_tokens : Option (List Str)
  pub admin_tokens : List Str
  pub usage_inject_upstreams : Option (List Str)
  pub memory : Memory
  pub snapshot : RouterSnapshot
  pub sched_rr : ℕ
  pub stats : Stats

pub record Selected : Type 0 where
  pub upstream : Upstream
  pub key : KeyState

abbrev pub update {ℓ} : {A : Type ℓ} → (ℕ → A) → ℕ → A → ℕ → A
update f i a j = if j == i then a else f j

pub update_same {ℓ} : {A : Type ℓ} (f : ℕ → A) (a : A) {i j : ℕ} → j ≡ i → update f i a j ≡ a
update_same f a e = ground (arith, e)

pub update_other {ℓ} : {A : Type ℓ} (f : ℕ → A) (a : A) {i j : ℕ} → j ≢ i → update f i a j ≡ f j
update_other f a e = ground (arith, e)

-- The cells that a selection, a key or an upstream refers to in a state.
abbrev pub upstream_cell : RouterState → Upstream → UpstreamCell
upstream_cell s u = s.memory.upstream_at u.cell

abbrev pub key_cell : RouterState → KeyState → KeyCell
key_cell s k = s.memory.key_at k.cell

abbrev pub set_upstream : Upstream → UpstreamCell → RouterState → RouterState
set_upstream u c s =
    let m = s.memory in
    record s { memory = record m { upstream_at = update m.upstream_at u.cell c } }

abbrev pub set_key : KeyState → KeyCell → RouterState → RouterState
set_key k c s =
    let m = s.memory in record s { memory = record m { key_at = update m.key_at k.cell c } }
