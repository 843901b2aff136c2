-- ===== src/Storage/Database.antt =====
-- The database of the package sled, as src/storage.rs uses it: a parameter. Each call may fail, and
-- then nothing is said of the trees; the laws are what a call that succeeds does.
use gptload_rs.Prelude.{ℕ, ◌≡◌, Bool, ◌&&◌, ◌||◌, not, Option, none, some, List, [], ◌∷◌}
use gptload_rs.Prelude.Text.{Str, str_eq, contains}
use gptload_rs.Prelude.Result.{ok}
use gptload_rs.Prelude.Effect.{Effect}

-- The items that are text.
abbrev pub texts : List (Option Str) → List Str
texts [] = []
texts (none ∷ items) = texts items
texts (some k ∷ items) = k ∷ texts items

-- `insert` answers whether the key is new, `remove` whether it was there; `iter` lists the keys of a
-- tree. `has name k d` is that the tree `name` holds `k`.
pub record Sled (D : Type 0) : Type 0 where
  pub has : Str → Str → D → Bool
  pub open_tree : Str → Effect D (Unit {0})
  pub insert : Str → Str → Effect D Bool
  pub remove : Str → Str → Effect D Bool
  pub clear : Str → Effect D (Unit {0})
  pub flush : Str → Effect D (Unit {0})
  pub iter : Str → Effect D (List (Option Str))
  pub len : Str → Effect D ℕ
  pub has-open_tree :
      (name t k : Str) (d : D)
      → (open_tree name d).0 ≡ ok tt
      → has t k (open_tree name d).1 ≡ has t k d
  pub has-insert :
      (name j t k : Str) (d : D) (new : Bool)
      → (insert name j d).0 ≡ ok new
      → (new ≡ not (has name j d))
        × (has t k (insert name j d).1 ≡ (str_eq name t && str_eq j k || has t k d))
  pub has-remove :
      (name j t k : Str) (d : D) (old : Bool)
      → (remove name j d).0 ≡ ok old
      → (old ≡ has name j d)
        × (has t k (remove name j d).1 ≡ (not (str_eq name t && str_eq j k) && has t k d))
  pub has-clear :
      (name t k : Str) (d : D)
      → (clear name d).0 ≡ ok tt
      → has t k (clear name d).1 ≡ (not (str_eq name t) && has t k d)
  pub has-flush :
      (name t k : Str) (d : D) → (flush name d).0 ≡ ok tt → has t k (flush name d).1 ≡ has t k d
  pub has-iter :
      (name t k : Str) (d : D) (items : List (Option Str))
      → (iter name d).0 ≡ ok items
      → (contains (texts items) k ≡ has name k d) × (has t k (iter name d).1 ≡ has t k d)
