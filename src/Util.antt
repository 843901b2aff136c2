-- ===== src/Util.antt =====
-- `query_get` of src/util.rs.
pub mod Query
use gptload_rs.Prelude.{ℕ, Option, none, some, List, [], ◌∷◌, if◌then◌else◌}
use gptload_rs.Prelude.Text.{Str, str_eq}
use gptload_rs.Prelude.Split.{split, split_once}

-- The loop over the parts: the first part with the name decides, also if it has no `=`.
unfoldable pub query_parts : List Str → Str → Option Str
unfolding split_once str_eq
query_parts [] key = none
query_parts (part ∷ parts) key =
    let (k, v) = split_once b'=' part in if str_eq k key then v else query_parts parts key

-- `query` is `uri.query()`.
unfoldable pub query_get : Option Str → Str → Option Str
unfolding query_parts split
query_get none key = none
query_get (some q) key = query_parts (split b'&' q) key
