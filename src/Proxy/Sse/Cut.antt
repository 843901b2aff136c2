-- ===== src/Proxy/Sse/Cut.antt =====
-- Where a stream is cut into chunks, between two characters, makes no difference to what is found
-- in it.
use gptload_rs.Prelude.{Option, none, some, List, [], ◌∷◌, ◌++◌}
use gptload_rs.Prelude.Text.{Str}
use gptload_rs.Prelude.Split.{split}
use gptload_rs.Proxy.Json.{Value}
use gptload_rs.Proxy.Server.{UsageTokens}
use gptload_rs.Proxy.Sse.{sse_lines}

-- Two texts in pieces, put together: the last piece of one and the first of the other are one.
glue : List Str → List Str → List Str
glue [] qs = qs
glue (p ∷ []) [] = p ∷ []
glue (p ∷ []) (q ∷ qs) = (p ++ q) ∷ qs
glue (p ∷ p' ∷ ps) qs = p ∷ glue (p' ∷ ps) qs

-- The later of two finds.
abbrev pub later : Option UsageTokens → Option UsageTokens → Option UsageTokens
later none found = found
later (some u) found = some u

module _ (from_str : Str → Option Value) where
  abbrev in_text : Str → Str → Option UsageTokens × Str
  in_text buf text = sse_lines from_str (split b'\n' (buf ++ text)) none
