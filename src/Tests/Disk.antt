-- ===== src/Tests/Disk.antt =====
-- A disk: the trees of the key database as pairs of a tree and a key, and the two files.
use gptload_rs.Prelude.{
  ◌≡◌, refl, ◌∙◌, sym, ap, Bool, false, ◌&&◌, ◌||◌, not, Bool-cases, inl, inr, Option, some, List,
  [], ◌∷◌, length, if◌then◌else◌, arith,
}
use gptload_rs.Prelude.Text.{Str, str_eq, str_eq_iff, contains}
use gptload_rs.Prelude.Result.{Result, ok, err, storage, ok-injective}
use gptload_rs.Config.{UpstreamConfig}
use gptload_rs.Storage.Database.{Sled, texts}
use gptload_rs.State.Routes.Disk.{ModelRoutesFile, Files}

pub record Disk : Type 0 where
  pub db : List (Str × Str)
  pub routes : Result ModelRoutesFile
  pub upstreams : Result (List UpstreamConfig)

abbrev pub empty_disk : Disk
empty_disk = record { db = []; routes = err storage; upstreams = err storage }

abbrev pub holds : Str → Str → List (Str × Str) → Bool
holds t k [] = false
holds t k ((n, j) ∷ db) = str_eq n t && str_eq j k || holds t k db

abbrev pub removed : Str → Str → List (Str × Str) → List (Str × Str)
removed t k [] = []
removed t k ((n, j) ∷ db) =
    let rest = removed t k db in if str_eq n t && str_eq j k then rest else (n, j) ∷ rest

abbrev pub cleared : Str → List (Str × Str) → List (Str × Str)
cleared t [] = []
cleared t ((n, j) ∷ db) = let rest = cleared t db in if str_eq n t then rest else (n, j) ∷ rest

abbrev pub listed : Str → List (Str × Str) → List (Option Str)
listed t [] = []
listed t ((n, j) ∷ db) = let rest = listed t db in if str_eq n t then some j ∷ rest else rest

pub holds-removed :
    (name j t k : Str) (db : List (Str × Str))
    → holds t k (removed name j db) ≡ (not (str_eq name t && str_eq j k) && holds t k db)
holds-removed name j t k [] = ground arith
holds-removed name j t k ((n, i) ∷ db) =
    let a = str_eq_iff n name in
    let b = str_eq_iff i j in
    let c = str_eq_iff name t in
    let d = str_eq_iff j k in
    let e = str_eq_iff n t in
    let f = str_eq_iff i k in ground (arith, a, b, c, d, e, f, holds-removed name j t k db)

pub holds-cleared :
    (name t k : Str) (db : List (Str × Str))
    → holds t k (cleared name db) ≡ (not (str_eq name t) && holds t k db)
holds-cleared name t k [] = ground arith
holds-cleared name t k ((n, i) ∷ db) =
    let a = str_eq_iff n name in
    let c = str_eq_iff name t in
    let e = str_eq_iff n t in ground (arith, a, c, e, holds-cleared name t k db)

pub holds-listed :
    (t k : Str) (db : List (Str × Str)) → contains (texts (listed t db)) k ≡ holds t k db
unfolding contains
holds-listed t k [] = refl
holds-listed t k ((n, j) ∷ db) = elim (Bool-cases (str_eq n t)) [
  | inl e ↦ rw (e, contains) (ap (λ b. str_eq j k || b) (holds-listed t k db))
  | inr e ↦ rw e (holds-listed t k db)
]

abbrev pub sled : Sled Disk
sled = record {
  has = λ t k f. holds t k f.db;
  open_tree = λ name f. (ok tt, f);
  insert = λ name j f. (ok (not (holds name j f.db)), record f { db = (name, j) ∷ f.db });
  remove = λ name j f. (ok (holds name j f.db), record f { db = removed name j f.db });
  clear = λ name f. (ok tt, record f { db = cleared name f.db });
  flush = λ name f. (ok tt, f);
  iter = λ name f. (ok (listed name f.db), f);
  len = λ name f. (ok (length (listed name f.db)), f);
  has-open_tree = λ name t k f e. refl;
  has-insert = λ name j t k f new e. (sym (ok-injective e), refl);
  has-remove = λ name j t k f old e. (sym (ok-injective e), holds-removed name j t k f.db);
  has-clear = λ name t k f e. holds-cleared name t k f.db;
  has-flush = λ name t k f e. refl;
  has-iter = λ name t k f items e.
      (ap (λ l. contains (texts l) k) (sym (ok-injective e)) ∙ holds-listed name k f.db, refl);
}

abbrev pub files : Files Disk
files = record {
  load_model_routes = λ f. f.routes;
  write_model_routes = λ routes f. (ok tt, record f { routes = ok routes });
  load_upstreams_override = λ f. f.upstreams;
  write_upstreams_override = λ configs f. (ok tt, record f { upstreams = ok configs });
  load-write_upstreams = λ configs f e. refl;
  load-write_routes = λ routes f e. (
    routes,
    refl,
    record { updated_at_ms = refl; models = λ model. refl; upstreams = λ id. refl },
  );
  load_upstreams-write_routes = λ routes f. refl;
}
