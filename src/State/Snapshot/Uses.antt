-- ===== src/State/Snapshot/Uses.antt =====
-- What a well-formed snapshot gives to those who look things up and select.
use gptload_rs.Prelude.{
  ℕ, ◌+◌, ◌%◌, ◌^◌, ◌≤◌, ◌<◌, ◌≡◌, ◌≢◌, ◌↔◌, ◌∙◌, none, some, length, get_elem?, get_elem?-lt,
  All-get_elem?, count, arith,
}
use native.Mathlib.Nat.{mod-lt}
use gptload_rs.Prelude.Text.{Str}
use gptload_rs.State.Defs.{KeyState, Upstream, RouterState, Selected, upstream_cell}
use gptload_rs.State.Select.{index_of, upstream_by_id, scheduled, select_for_model, has_model}
use gptload_rs.State.Select.Rotation.{turn, count-turn}
use gptload_rs.State.Select.Available.{IsAvailable, select_where_sound, select_where_complete}
use gptload_rs.State.Snapshot.Built.{IsBuilt}

-- Weighted fairness: from any position of the round robin that is a turn away from the end of a
-- usize, one turn of as many rounds as the schedule is long meets each upstream exactly as often as
-- its weight says.
pub turn-weight :
    {base : ℕ} (s : RouterState) (rr i : ℕ) {u : Upstream}
    → IsBuilt base s.snapshot s.memory
    → get_elem? s.snapshot.upstreams i ≡ some u
    → rr + length s.snapshot.schedule ≤ 2 ^ 64
    → count i (turn s.snapshot rr (length s.snapshot.schedule)) ≡ u.weight
turn-weight s rr i {u} v at room = count-turn s.snapshot rr i room ∙ (v.weights i u at).0

-- `upstream_by_id` returns the upstream with the id together with its position, and returns one
-- for every upstream of the snapshot.
pub upstream_by_id_lem :
    {base : ℕ} (s : RouterState) (id : Str) (i : ℕ) (u : Upstream)
    → IsBuilt base s.snapshot s.memory
    → (upstream_by_id id s ≡ some (i, u))
      ↔ ((get_elem? s.snapshot.upstreams i ≡ some u) × (u.id ≡ id))
unfolding upstream_by_id
upstream_by_id_lem s id i u v = (
  λ e.
      let named : index_of id s.snapshot.upstream_index ≡ some i = found_index e in
      let (w, at, same) = v.indexed id i named in (ground arith, ground arith),
  λ h. let at = v.found i u h.0 in ground arith,
)
  where
    found_index : upstream_by_id id s ≡ some (i, u) → index_of id s.snapshot.upstream_index ≡ some i
    found_index e = ground arith

scheduled-ne-none :
    {base : ℕ} (s : RouterState) (rr : ℕ)
    → IsBuilt base s.snapshot s.memory
    → 0 < length s.snapshot.schedule
    → scheduled s.snapshot rr ≢ none
unfolding scheduled
scheduled-ne-none s rr v pos =
    let snap = s.snapshot in
    let (i, at) = get_elem?-lt snap.schedule (rr % length snap.schedule) (mod-lt rr pos) in
    let (u, at') =
      get_elem?-lt snap.upstreams i (All-get_elem? _ snap.schedule _ {x = i} v.entries at) in
    ground arith

-- What `select_for_model` returns is a scheduled upstream with the model that is not cooling down,
-- and one of its keys whose cooldown is over.
pub select_for_model_sound :
    (model : Str) (now_ms : ℕ) (s : RouterState) {sel : Selected}
    → (select_for_model model now_ms s).0 ≡ some sel
    → IsAvailable (has_model model) s.snapshot now_ms s sel.upstream sel.key
unfolding select_for_model
select_for_model_sound model now_ms s {sel} e =
    select_where_sound (has_model model) now_ms s {sel = sel} e

-- In a well-formed snapshot `select_for_model` finds a selection whenever some upstream with the
-- model and some key of it are available, as long as the round robins are a turn away from the end
-- of a usize.
pub select_for_model_complete :
    {base : ℕ} (model : Str) (now_ms : ℕ) (s : RouterState) (u : Upstream) (k : KeyState)
    → IsBuilt base s.snapshot s.memory
    → IsAvailable (has_model model) s.snapshot now_ms s u k
    → (upstream_cell s u).key_rr + length (upstream_cell s u).keys + length s.snapshot.schedule
      ≤ 2 ^ 64
    → s.sched_rr + length s.snapshot.schedule ≤ 2 ^ 64
    → (select_for_model model now_ms s).0 ≢ none
unfolding select_for_model
select_for_model_complete model now_ms s u k v a room room_rr =
    select_where_complete (has_model model) now_ms s u k
      (λ rr. scheduled-ne-none s rr v (omega (arith, a.in_schedule))) a room room_rr
