-- ===== src/Billing/Tree.antt =====
-- The tree of the key-value store that keeps the balances. It belongs to the package sled: a
-- parameter, with what src/billing.rs relies on as laws. A key is held as its text. Each call may
-- fail; the laws are what a call that succeeds does.
use gptload_rs.Prelude.{ℕ, ◌≡◌, Option, none, some, List, [], ◌∷◌, if◌then◌else◌}
use gptload_rs.Prelude.Text.{Str, str_eq}
use gptload_rs.Prelude.Dict.{Dict, lookup}
use gptload_rs.Prelude.Result.{Result, ok}
use gptload_rs.Prelude.Effect.{Effect}

-- No key stands twice.
abbrev pub IsDistinct {ℓ} : {V : Type ℓ} → Dict V → Type ℓ
IsDistinct [] = Unit
IsDistinct ((k, v) ∷ d) = (lookup k d ≡ none) × IsDistinct d

-- Items of which none failed to be read.
abbrev pub all_ok : Dict (List ℕ) → List (Result (Str × List ℕ))
all_ok [] = []
all_ok (item ∷ d) = ok item ∷ all_ok d

-- `iter` lists the items, each key once; `tree_insert` writes one item; `tree_flush` writes to disk
-- and changes no item, also when it fails. `get k t` is what the tree holds for a key.
pub record Tree (T : Type 0) : Type 0 where
  pub get : Str → T → Option (List ℕ)
  pub iter : T → List (Result (Str × List ℕ))
  pub tree_insert : Str → List ℕ → Effect T (Unit {0})
  pub tree_flush : Effect T (Unit {0})
  pub get-iter :
      (k : Str) (t : T) (d : Dict (List ℕ))
      → iter t ≡ all_ok d
      → IsDistinct d × (lookup k d ≡ get k t)
  pub get-tree_insert :
      (k j : Str) (v : List ℕ) (t : T)
      → (tree_insert k v t).0 ≡ ok tt
      → get j (tree_insert k v t).1 ≡ (if str_eq k j then some v else get j t)
  pub get-tree_flush : (j : Str) (t : T) → get j (tree_flush t).1 ≡ get j t
