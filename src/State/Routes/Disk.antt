-- ===== src/State/Routes/Disk.antt =====
-- The files of src/state.rs: the model routes and the upstreams that replace those of the
-- configuration. Reading and writing them, JSON included, is a parameter.
use gptload_rs.Prelude.{ℕ, ◌≡◌, List}
use gptload_rs.Prelude.Text.{Str}
use gptload_rs.Prelude.Dict.{Dict, lookup}
use gptload_rs.Prelude.Result.{Result, ok}
use gptload_rs.Prelude.Effect.{Effect}
use gptload_rs.Config.{UpstreamConfig}
use gptload_rs.State.Defs.{RouterState}

pub record ModelRoutesFile : Type 0 where
  pub updated_at_ms : ℕ
  pub models : Dict (List Str)
  pub upstreams : Dict (List Str)

-- Two tables of routes that are the same maps: the order of the entries does not count.
pub record IsSameRoutes (r r' : ModelRoutesFile) : Type 0 where
  pub updated_at_ms : r'.updated_at_ms ≡ r.updated_at_ms
  pub models : (model : Str) → lookup model r'.models ≡ lookup model r.models
  pub upstreams : (id : Str) → lookup id r'.upstreams ≡ lookup id r.upstreams

-- `F` is the state of the disk. What `write_upstreams_override` has written is what
-- `load_upstreams_override` reads, and what `write_model_routes` has written is what
-- `load_model_routes` reads.
pub record Files (F : Type 0) : Type 0 where
  pub load_model_routes : F → Result ModelRoutesFile
  pub write_model_routes : ModelRoutesFile → Effect F (Unit {0})
  pub load_upstreams_override : F → Result (List UpstreamConfig)
  pub write_upstreams_override : List UpstreamConfig → Effect F (Unit {0})
  pub load-write_upstreams :
      (configs : List UpstreamConfig) (f : F)
      → (write_upstreams_override configs f).0 ≡ ok tt
      → load_upstreams_override (write_upstreams_override configs f).1 ≡ ok configs
  pub load-write_routes :
      (routes : ModelRoutesFile) (f : F)
      → (write_model_routes routes f).0 ≡ ok tt
      → (r : ModelRoutesFile) × (load_model_routes (write_model_routes routes f).1 ≡ ok r)
        × IsSameRoutes routes r
  pub load_upstreams-write_routes :
      (routes : ModelRoutesFile) (f : F)
      → load_upstreams_override (write_model_routes routes f).1 ≡ load_upstreams_override f

-- The state of the router and the files beside it.
pub record Hub (F : Type 0) : Type 0 where
  pub router : RouterState
  pub files : F
