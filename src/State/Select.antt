-- ===== src/State/Select.antt =====
-- `select`, `select_for_model`, `Upstream::select_key`, `upstream_by_id`, `model_exists` and
-- `any_models_loaded` of src/state.rs. An index out of range, where the code would panic, is `none`.
pub mod Keys
pub mod Available
pub mod Rotation
use gptload_rs.Prelude.{
  ℕ, zero, suc, ◌%◌, ◌+◌, Bool, true, false, ◌||◌, not, Option, none, some, List, [], ◌∷◌, length,
  get_elem?, leb, ltb, ◌==◌, if◌then◌else◌,
}
use gptload_rs.Prelude.Words.{add64}
use gptload_rs.Prelude.Text.{Str, str_eq, contains, is_empty}
use gptload_rs.State.Defs.{
  KeyState, Upstream, UpstreamCell, RouterSnapshot, RouterState, Selected, upstream_cell, key_cell,
  set_upstream,
}

-- `until <= now_ms` at a key.
abbrev pub is_ready : RouterState → ℕ → KeyState → Bool
is_ready s now_ms k = leb (key_cell s k).cooldown_until_ms now_ms

-- The loop of `select_key` over `i`, with `rounds` rounds left. `start + i` is a usize.
unfoldable pub scan_keys : RouterState → List KeyState → ℕ → ℕ → ℕ → ℕ → Option KeyState
scan_keys s keys now_ms start i zero = none
scan_keys s keys now_ms start i (suc rounds) =
    let rest = scan_keys s keys now_ms start (i + 1) rounds in
    elim (get_elem? keys (add64 start i % length keys)) [
      | none ↦ none
      | some k ↦ if is_ready s now_ms k then some k else rest
    ]

unfoldable pub select_key : Upstream → ℕ → RouterState → Option KeyState × RouterState
unfolding scan_keys
select_key u now_ms s =
    let c = upstream_cell s u in
    if length c.keys == 0 then (none, s) else (
      scan_keys s c.keys now_ms c.key_rr 0 (length c.keys),
      set_upstream u (record c { key_rr = add64 c.key_rr 1 }) s,
    )

-- A selection is counted in the global counters and in the upstream's.
unfoldable pub count_selected : Upstream → RouterState → RouterState
count_selected u s =
    let c = upstream_cell s u in
    let t = c.stats in
    let g = s.stats in
    let s' =
      set_upstream u (record c { stats = record t { selected_total = add64 t.selected_total 1 } })
        s in
    record s' { stats = record g { upstream_selected_total = add64 g.upstream_selected_total 1 } }

-- One round of the loop of `select_for_model` at an upstream: `none` goes on to the next round.
unfoldable pub visit :
    (List Str → Bool) → ℕ → Upstream → RouterState → Option Selected × RouterState
unfolding select_key count_selected
visit wanted now_ms u s =
    let c = upstream_cell s u in
    if not (wanted c.models)
    then (none, s)
    else if ltb now_ms c.cooldown_until_ms
    then (none, s)
    else let (found, s') = select_key u now_ms s in
      elim found [
        | none ↦ (none, s')
        | some k ↦ (some (record { upstream = u; key = k }), count_selected u s')
      ]

-- `snap.schedule[rr % sched_len]`
unfoldable pub schedule_entry : RouterSnapshot → ℕ → Option ℕ
schedule_entry snap rr = get_elem? snap.schedule (rr % length snap.schedule)

-- The upstream of that entry.
unfoldable pub scheduled : RouterSnapshot → ℕ → Option Upstream
unfolding schedule_entry
scheduled snap rr = elim (schedule_entry snap rr) [
  | none ↦ none
  | some u_idx ↦ get_elem? snap.upstreams u_idx
]

-- The loop of `select` and of `select_for_model` over a snapshot that was loaded once.
unfoldable pub select_loop :
    (List Str → Bool) → RouterSnapshot → ℕ → ℕ → RouterState → Option Selected × RouterState
select_loop wanted snap now_ms zero s = (none, s)
select_loop wanted snap now_ms (suc rounds) s =
    let s1 = record s { sched_rr = add64 s.sched_rr 1 } in
    elim (scheduled snap s.sched_rr) [
      | none ↦ (none, s1)
      | some u ↦
          let (found, s2) = visit wanted now_ms u s1 in
          elim found [ none ↦ select_loop wanted snap now_ms rounds s2 | some sel ↦ (some sel, s2) ]
    ]

unfoldable pub select_where : (List Str → Bool) → ℕ → RouterState → Option Selected × RouterState
unfolding select_loop scheduled visit
select_where wanted now_ms s =
    if length s.snapshot.schedule == 0
    then (none, s)
    else select_loop wanted s.snapshot now_ms (length s.snapshot.schedule) s

abbrev pub any_model : List Str → Bool
any_model models = true

abbrev pub has_model : Str → List Str → Bool
has_model model models = contains models model

unfoldable pub select : ℕ → RouterState → Option Selected × RouterState
unfolding select_where
select now_ms s = select_where any_model now_ms s

unfoldable pub select_for_model : Str → ℕ → RouterState → Option Selected × RouterState
unfolding select_where
select_for_model model now_ms s = select_where (has_model model) now_ms s

-- `upstream_index.get(id)`
unfoldable pub index_of : Str → List (Str × ℕ) → Option ℕ
index_of id [] = none
index_of id ((j, idx) ∷ rest) = if str_eq j id then some idx else index_of id rest

unfoldable pub upstream_by_id : Str → RouterState → Option (ℕ × Upstream)
unfolding index_of
upstream_by_id id s = elim (index_of id s.snapshot.upstream_index) [
  | none ↦ none
  | some idx ↦ elim (get_elem? s.snapshot.upstreams idx) [ none ↦ none | some u ↦ some (idx, u) ]
]

unfoldable pub any_upstream : (Upstream → Bool) → List Upstream → Bool
any_upstream p [] = false
any_upstream p (u ∷ us) = p u || any_upstream p us

unfoldable pub model_exists : Str → RouterState → Bool
unfolding any_upstream
model_exists model s =
    any_upstream (λ u. has_model model (upstream_cell s u).models) s.snapshot.upstreams

unfoldable pub any_models_loaded : RouterState → Bool
unfolding any_upstream
any_models_loaded s =
    any_upstream (λ u. not (is_empty (upstream_cell s u).models)) s.snapshot.upstreams
