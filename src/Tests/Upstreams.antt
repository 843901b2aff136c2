-- ===== src/Tests/Upstreams.antt =====
-- Changes to the upstreams and the model routes of a router with one upstream.
use gptload_rs.Prelude.{◌≡◌, refl, true, none, some, List, [], ◌∷◌, if◌then◌else◌}
use gptload_rs.Prelude.Text.{Str, codes, contains, str_eq}
use gptload_rs.Prelude.Dict.{Dict, lookup}
use gptload_rs.Prelude.Result.{Result, ok, err}
use gptload_rs.Config.{Config, UpstreamConfig}
use gptload_rs.State.Defs.{Upstream, RouterState, upstream_cell}
use gptload_rs.State.Snapshot.{clamp_weight}
use gptload_rs.State.Routes.Disk.{ModelRoutesFile, Hub}
use gptload_rs.State.Routes.{list_at, save_model_routes}
use gptload_rs.State.Routes.Serves.{serves}
use gptload_rs.State.Routes.Applied.{Routes, save_model_routes-serves}
use gptload_rs.State.Upstreams.{
  current_upstream_configs, replace_upstreams, add_upstream, update_upstream, delete_upstream,
}
use gptload_rs.State.Upstreams.Replaced.{normalized, all_normalized}
use gptload_rs.State.Upstreams.Changed.{IsOver, replace_upstreams_lem}
use gptload_rs.State.Upstreams.Listing.{
  config_at, add_upstream_lem, update_upstream_lem, delete_upstream_lem,
}
use gptload_rs.State.Start.{new_state}
use gptload_rs.State.Start.Again.{new_state-replace_upstreams}
use gptload_rs.Tests.World.{http, free, ban}
use gptload_rs.Tests.Disk.{Disk, empty_disk, sled, files}
use gptload_rs.Tests.Keys.{one_router, one-IsBuilt}

abbrev hub : Hub Disk
hub = record { router = one_router; files = empty_disk }

abbrev heavy : UpstreamConfig
heavy = record { id = codes "b"; base_url = codes "http://b/"; weight = some 500 }

abbrev two_configs : List UpstreamConfig
two_configs = heavy ∷ (record heavy { id = codes "c"; weight = some 2 }) ∷ []

replaced : (replace_upstreams http sled files 0 two_configs hub).0 ≡ ok tt
unfolding replace_upstreams
replaced = refl

replace_upstreams_lem_example :
    (current_upstream_configs (replace_upstreams http sled files 0 two_configs hub).1.router
      ≡ all_normalized two_configs)
    × IsOver hub.router.memory (replace_upstreams http sled files 0 two_configs hub).1.router
    × (files.load_upstreams_override (replace_upstreams http sled files 0 two_configs hub).1.files
        ≡ ok two_configs)
replace_upstreams_lem_example = replace_upstreams_lem http sled files 0 two_configs hub replaced

added : (add_upstream http sled files 0 heavy hub).0 ≡ ok tt
unfolding add_upstream
added = refl

add_upstream_lem_example :
    config_at
      (codes "b")
      (current_upstream_configs (add_upstream http sled files 0 heavy hub).1.router)
    ≡ (if str_eq (codes "b") (codes "b")
        then some (normalized heavy)
        else config_at (codes "b") (current_upstream_configs hub.router))
add_upstream_lem_example =
    add_upstream_lem http sled files 0 hub one-IsBuilt heavy (codes "b") added

updated : (update_upstream http sled files 0 (codes "a") (codes "http://b/") (some 7) hub).0 ≡ ok tt
unfolding update_upstream
updated = refl

update_upstream_lem_example :
    config_at (codes "a") (
      current_upstream_configs
        (update_upstream http sled files 0 (codes "a") (codes "http://b/") (some 7) hub).1.router)
    ≡ (if str_eq (codes "a") (codes "a")
        then some (record {
          id = codes "a";
          base_url = codes "http://b/";
          weight = some (clamp_weight (some 7));
        })
        else config_at (codes "a") (current_upstream_configs hub.router))
update_upstream_lem_example =
    update_upstream_lem http sled files 0 hub one-IsBuilt (codes "a") (codes "http://b/") (some 7)
      (codes "a") updated

abbrev cfg : Config
cfg = record {
  max_retries = none;
  retry_status_codes = none;
  proxy_tokens = none;
  admin_tokens = codes "t" ∷ [];
  usage_inject_upstreams = none;
  ban = ban;
  upstreams = [];
}

abbrev left : Disk
left = (replace_upstreams http sled files 0 two_configs hub).1.files

abbrev state_of : Result RouterState → RouterState
state_of (ok s) = s
state_of (err _) = one_router

abbrev again : RouterState
again = state_of (new_state http sled files cfg left free)

started : new_state http sled files cfg left free ≡ ok again
unfolding new_state replace_upstreams
started = refl

new_state-replace_upstreams_example :
    current_upstream_configs again
    ≡ current_upstream_configs (replace_upstreams http sled files 0 two_configs hub).1.router
new_state-replace_upstreams_example =
    new_state-replace_upstreams http sled files 0 two_configs hub cfg free {s = again} replaced
      started

abbrev routes : Dict (List Str)
routes = (codes "a", codes " gpt " ∷ codes "" ∷ codes "gpt" ∷ []) ∷ []

abbrev first : Upstream
first = record {
  id = codes "a";
  base_url = codes "http://h/";
  base_scheme = codes "http";
  base_authority = codes "h";
  base_path = [];
  weight = 1;
  cell = 0;
}

abbrev routes_of : Result ModelRoutesFile → ModelRoutesFile
routes_of (ok r) = r
routes_of (err _) = record { updated_at_ms = 0; models = []; upstreams = [] }

abbrev saved : ModelRoutesFile
saved = routes_of (save_model_routes files 5 routes hub).0

saved_ok : (save_model_routes files 5 routes hub).0 ≡ ok saved
unfolding save_model_routes
saved_ok = refl

save_model_routes-serves_example :
    (contains
        (upstream_cell (save_model_routes files 5 routes hub).1.router first).models
        (codes "gpt")
      ≡ serves (list_at (codes "a") routes) (codes "gpt"))
    × Routes saved routes (codes "a") (codes "gpt")
    × (r : ModelRoutesFile) × (files.load_model_routes
          (save_model_routes files 5 routes hub).1.files
        ≡ ok r)
    × Routes r routes (codes "a") (codes "gpt")
unfolding lookup
save_model_routes-serves_example =
    save_model_routes-serves files 5 routes hub 0 first (codes "gpt") one-IsBuilt (refl, tt) refl
      saved_ok

abbrev two_hub : Hub Disk
two_hub = (replace_upstreams http sled files 0 two_configs hub).1

deleted : (delete_upstream http sled files 0 (codes "b") true two_hub).0 ≡ ok tt
unfolding delete_upstream replace_upstreams
deleted = refl

delete_upstream_lem_example :
    config_at (codes "b") (
      current_upstream_configs
        (delete_upstream http sled files 0 (codes "b") true two_hub).1.router)
    ≡ (if str_eq (codes "b") (codes "b")
        then none
        else config_at (codes "b") (current_upstream_configs two_hub.router))
delete_upstream_lem_example =
    delete_upstream_lem http sled files 0 two_hub replace_upstreams_lem_example.1.built (codes "b")
      true (codes "b") deleted
