-- ===== src/Tests/Routing.antt =====
-- The built router, its selections and its rotation.
use gptload_rs.Prelude.{◌+◌, ◌≤◌, ◌^◌, ◌≡◌, ◌≢◌, refl, none, some, length, get_elem?, count, arith}
use gptload_rs.Prelude.Text.{trim, is_whitespace, str_eq, contains, trim_end_matches}
use gptload_rs.Prelude.Result.{ok}
use gptload_rs.State.Defs.{upstream_cell, key_cell}
use gptload_rs.State.Select.{has_model, select_key, select_for_model}
use gptload_rs.State.Select.Available.{IsAvailable}
use gptload_rs.State.Select.Rotation.{turn}
use gptload_rs.State.Snapshot.{build_snapshot_from_configs, build_key_states, alloc_key}
use gptload_rs.State.Snapshot.Built.{IsBuilt, build_snapshot_from_configs-IsBuilt}
use gptload_rs.State.Snapshot.Uses.{turn-weight, select_for_model_sound, select_for_model_complete}
use gptload_rs.Tests.World.{
  http, load_all_keys, configs, free, built, snapshot, memory, router, gpt, first_upstream,
  first_key, first_selected,
}

built-ok : built ≡ ok (snapshot, memory)
unfolding build_snapshot_from_configs snapshot memory build_key_states alloc_key trim is_whitespace
    str_eq trim_end_matches
built-ok = refl

build_snapshot_from_configs-IsBuilt_example : IsBuilt 0 snapshot memory
build_snapshot_from_configs-IsBuilt_example =
    build_snapshot_from_configs-IsBuilt http load_all_keys configs free built-ok

router-IsBuilt : IsBuilt 0 router.snapshot router.memory
unfolding router
router-IsBuilt =
    let b = build_snapshot_from_configs-IsBuilt http load_all_keys configs free built-ok in
    record {
      entries = b.entries;
      weights = b.weights;
      indexed = b.indexed;
      found = b.found;
      cells = b.cells;
      next = b.next;
    }

first-upstream : get_elem? router.snapshot.upstreams 0 ≡ some first_upstream
unfolding router snapshot build_snapshot_from_configs trim str_eq trim_end_matches
first-upstream = refl

turn-room : 5 + length router.snapshot.schedule ≤ 2 ^ 64
unfolding router snapshot build_snapshot_from_configs trim is_whitespace str_eq trim_end_matches
turn-room = omega arith

turn-weight_example : count 0 (turn router.snapshot 5 (length router.snapshot.schedule)) ≡ 2
turn-weight_example = turn-weight router 5 0 router-IsBuilt first-upstream turn-room

first-key : get_elem? (upstream_cell router first_upstream).keys 0 ≡ some first_key
unfolding router memory build_snapshot_from_configs build_key_states alloc_key trim is_whitespace
    str_eq trim_end_matches
first-key = refl

ready-key : (key_cell router first_key).cooldown_until_ms ≤ 1000
unfolding router memory build_snapshot_from_configs build_key_states alloc_key trim is_whitespace
    str_eq trim_end_matches
ready-key = omega arith

first-position :
    (upstream_cell router first_upstream).key_rr + length (upstream_cell router first_upstream).keys
    ≤ 2 ^ 64
unfolding router memory build_snapshot_from_configs build_key_states alloc_key trim is_whitespace
    str_eq trim_end_matches
first-position = omega arith

select_key-first : (select_key first_upstream 1000 router).0 ≡ some first_key
unfolding select_key router memory build_snapshot_from_configs build_key_states alloc_key trim
    is_whitespace str_eq trim_end_matches
select_key-first = refl

select_for_model-first : (select_for_model gpt 1000 router).0 ≡ some first_selected
unfolding select_for_model router snapshot memory build_snapshot_from_configs build_key_states
    alloc_key trim is_whitespace str_eq trim_end_matches contains
select_for_model-first = refl

select_for_model_sound_example :
    IsAvailable (has_model gpt) router.snapshot 1000 router first_upstream first_key
select_for_model_sound_example = select_for_model_sound gpt 1000 router select_for_model-first

first-room :
    (upstream_cell router first_upstream).key_rr
      + length (upstream_cell router first_upstream).keys
      + length router.snapshot.schedule
    ≤ 2 ^ 64
unfolding router snapshot memory build_snapshot_from_configs build_key_states alloc_key trim
    is_whitespace str_eq trim_end_matches
first-room = omega arith

schedule-room : router.sched_rr + length router.snapshot.schedule ≤ 2 ^ 64
unfolding router snapshot build_snapshot_from_configs trim str_eq trim_end_matches
schedule-room = omega arith

select_for_model_complete_example : (select_for_model gpt 1000 router).0 ≢ none
select_for_model_complete_example =
    select_for_model_complete gpt 1000 router first_upstream first_key router-IsBuilt
      (select_for_model_sound gpt 1000 router select_for_model-first) first-room schedule-room
