-- ===== src/State/Snapshot/Built.antt =====
-- What a snapshot that was built from the configuration satisfies.
use mathlib.Core.Path.{subst}
use gptload_rs.Prelude.{
  ap, sym, replicate, length-append, All-append, All-map, All-replicate, get_elem?-snoc,
  count-append, count-replicate, count-eq-zero, lt_of_get_elem?, Bool-cases, inl, inr, ℕ, suc, ◌+◌,
  ◌≤◌, ◌<◌, ◌≡◌, refl, false, Option, none, some, List, [], ◌∷◌, ◌++◌, All, length, get_elem?,
  count, arith,
}
use gptload_rs.Prelude.Text.{Str, str_eq, str_eq_iff, str_eq_refl, is_empty, trim}
use gptload_rs.Prelude.Result.{
  Result, ok, >>=-eq-ok, >>-eq-ok, ok-injective, bail_if, bail_if-eq-ok, no_upstreams, duplicate_id,
}
use gptload_rs.Config.{UpstreamConfig}
use gptload_rs.State.Defs.{KeyState, Upstream, Memory, RouterSnapshot}
use gptload_rs.State.Select.{index_of}
use gptload_rs.State.Snapshot.{
  Http, build_key_states, parse_upstream, build_one, build_loop, build_snapshot_from_configs,
  is_some, store_keys, clamp_weight, max_weight, alloc_key, bearer,
}

module _ (http : Http) where
  parse_upstream_fields :
      (c : UpstreamConfig) (weight : ℕ) (m : Memory) {u : Upstream} {m' : Memory}
      → parse_upstream http c weight m ≡ ok (u, m')
      → (u.id ≡ c.id)
        × (u.weight ≡ weight)
        × (u.cell ≡ m.next_upstream)
        × (m'.next_upstream ≡ m.next_upstream + 1)
  unfolding parse_upstream
  parse_upstream_fields c weight m e = ground arith

  pub build_key_states-next :
      (keys : List Str) (m : Memory) {ks : List KeyState} {m' : Memory}
      → build_key_states http keys m ≡ ok (ks, m')
      → m'.next_upstream ≡ m.next_upstream
  unfolding build_key_states
  build_key_states-next [] m e = ground arith
  build_key_states-next (k ∷ keys) m {ks} {m'} e = elim (Bool-cases (is_empty (trim k))) [
    | inl skip ↦ build_key_states-next keys m {ks = ks} (rw skip at e)
    | inr keep ↦ elim (Bool-cases (http.header_accepts (bearer (trim k)))) [
      | inr bad ↦ absurd (let bad_key = rw (keep, bad) at e in cc bad_key)
      | inl good ↦
          let (state, m1) = alloc_key (trim k) (bearer (trim k)) m in
          let kept = rw (keep, good) at e in
          let ((rest, m2), built, same) = >>=-eq-ok (build_key_states http keys m1) _ kept in
          ground (arith, build_key_states-next keys m1 {ks = rest} built)
    ]
  ]

-- A snapshot over the upstreams whose cells begin at `base`, in a memory whose cells end behind
-- them.
pub record IsBuilt (base : ℕ) (snap : RouterSnapshot) (m : Memory) : Type 0 where
  -- the schedule holds positions of upstreams, each as often as the upstream's weight
  pub entries : All (λ i. i < length snap.upstreams) snap.schedule
  pub weights :
      (i : ℕ) (u : Upstream)
      → get_elem? snap.upstreams i ≡ some u
      → (count i snap.schedule ≡ u.weight) × (1 ≤ u.weight) × (u.weight ≤ max_weight)
  -- the index is the position of the id, in both directions
  pub indexed :
      (id : Str) (i : ℕ)
      → index_of id snap.upstream_index ≡ some i
      → (u : Upstream) × (get_elem? snap.upstreams i ≡ some u) × (u.id ≡ id)
  pub found :
      (i : ℕ) (u : Upstream)
      → get_elem? snap.upstreams i ≡ some u
      → index_of u.id snap.upstream_index ≡ some i
  -- no two upstreams share a cell
  pub cells : (i : ℕ) (u : Upstream) → get_elem? snap.upstreams i ≡ some u → u.cell ≡ base + i
  pub next : m.next_upstream ≡ base + length snap.upstreams

clamp_weight_bounds : (w : Option ℕ) → (1 ≤ clamp_weight w) × (clamp_weight w ≤ max_weight)
unfolding clamp_weight
clamp_weight_bounds none = omega arith
clamp_weight_bounds (some w) = omega arith

-- Adding an upstream with a new id at the end.
module _ {base : ℕ} {snap : RouterSnapshot} {m : Memory} (v : IsBuilt base snap m) (u : Upstream)
    (fresh : index_of u.id snap.upstream_index ≡ none)
    (weight : (1 ≤ u.weight) × (u.weight ≤ max_weight)) (cell : u.cell ≡ m.next_upstream) where
  abbrev n : ℕ
  n = length snap.upstreams

  abbrev added : RouterSnapshot
  added = record {
    upstreams = snap.upstreams ++ u ∷ [];
    upstream_index = (u.id, n) ∷ snap.upstream_index;
    schedule = snap.schedule ++ replicate u.weight n;
  }

  grown : length added.upstreams ≡ suc n
  grown = omega (arith, length-append snap.upstreams (u ∷ []))

  added-entries : All (λ i. i < length added.upstreams) added.schedule
  added-entries =
      All-append _ snap.schedule (replicate u.weight n)
        (All-map _ snap.schedule _ (λ i lt. omega (arith, grown)) v.entries)
        (All-replicate _ u.weight n (omega (arith, grown)))

  added-weights :
      (i : ℕ) (w : Upstream)
      → get_elem? added.upstreams i ≡ some w
      → (count i added.schedule ≡ w.weight) × (1 ≤ w.weight) × (w.weight ≤ max_weight)
  added-weights i w e =
      let at = get_elem?-snoc snap.upstreams u i in
      let old = count-append i snap.schedule (replicate u.weight n) in
      let new = count-replicate i u.weight n in
      let absent = count-eq-zero n snap.schedule v.entries in
      ground (arith, v.weights i w, lt_of_get_elem? snap.upstreams i {x = w})

  added-indexed :
      (id : Str) (i : ℕ)
      → index_of id added.upstream_index ≡ some i
      → (w : Upstream) × (get_elem? added.upstreams i ≡ some w) × (w.id ≡ id)
  unfolding index_of
  added-indexed id i e = elim (Bool-cases (str_eq u.id id)) [
    | inl new ↦ (u, ground (arith, get_elem?-snoc snap.upstreams u i), (str_eq_iff u.id id).0 new)
    | inr old ↦
        let (w, at, same) = v.indexed id i (rw old at e) in
        let lt = lt_of_get_elem? snap.upstreams i {x = w} at in
        (w, ground (arith, get_elem?-snoc snap.upstreams u i), same)
  ]

  added-found :
      (i : ℕ) (w : Upstream)
      → get_elem? added.upstreams i ≡ some w
      → index_of w.id added.upstream_index ≡ some i
  unfolding index_of
  added-found i w e = ground (
    arith,
    get_elem?-snoc snap.upstreams u i,
    str_eq_iff u.id w.id,
    str_eq_refl u.id,
    v.found i w,
  )

  added-cells : (i : ℕ) (w : Upstream) → get_elem? added.upstreams i ≡ some w → w.cell ≡ base + i
  added-cells i w e = ground (arith, get_elem?-snoc snap.upstreams u i, v.cells i w, v.next)

  -- The snapshot with `u` at its end, in any memory where the cell of `u` is taken.
  added-IsBuilt : (m' : Memory) → m'.next_upstream ≡ m.next_upstream + 1 → IsBuilt base added m'
  added-IsBuilt m' taken = record {
    entries = added-entries;
    weights = added-weights;
    indexed = added-indexed;
    found = added-found;
    cells = added-cells;
    next = omega (arith, grown, v.next);
  }

is_some-eq-none {ℓ} : {A : Type ℓ} (o : Option A) → is_some o ≡ false → o ≡ none
is_some-eq-none none e = refl
is_some-eq-none (some a) e = cc

module _ (http : Http) (load_all_keys : Str → Result (List Str)) where
  -- The last line of a round, once the parts are there.
  round-IsBuilt :
      {base : ℕ} (snap : RouterSnapshot) (m m1 m2 : Memory) (c : UpstreamConfig) (u : Upstream)
      (key_states : List KeyState) {snap' : RouterSnapshot} {m' : Memory}
      → IsBuilt base snap m
      → is_some (index_of c.id snap.upstream_index) ≡ false
      → (u.id ≡ c.id)
        × (u.weight ≡ clamp_weight c.weight)
        × (u.cell ≡ m.next_upstream)
        × (m1.next_upstream ≡ m.next_upstream + 1)
      → m2.next_upstream ≡ m1.next_upstream
      → snap' ≡ record {
        upstreams = snap.upstreams ++ u ∷ [];
        upstream_index = (u.id, length snap.upstreams) ∷ snap.upstream_index;
        schedule = snap.schedule ++ replicate (clamp_weight c.weight) (length snap.upstreams);
      }
      → m' ≡ store_keys http u key_states m2
      → IsBuilt base snap' m'
  round-IsBuilt {base} snap m m1 m2 c u key_states v fresh (id, w, cell, next) next' es em =
      let free : index_of u.id snap.upstream_index ≡ none = rw id (is_some-eq-none _ fresh) in
      let weight : (1 ≤ u.weight) × (u.weight ≤ max_weight) = rw w (clamp_weight_bounds c.weight) in
      let built =
        added-IsBuilt v u free weight cell (store_keys http u key_states m2) (omega arith) in
      rw (es, em, ← w) built

  build_one-IsBuilt :
      (c : UpstreamConfig) {base : ℕ} (snap : RouterSnapshot) (m : Memory) {snap' : RouterSnapshot}
      {m' : Memory}
      → IsBuilt base snap m
      → build_one http load_all_keys c (snap, m) ≡ ok (snap', m')
      → IsBuilt base snap' m'
  unfolding build_one
  build_one-IsBuilt c snap m {snap'} {m'} v e =
      let (new, e1) =
        >>-eq-ok (bail_if (is_some (index_of c.id snap.upstream_index)) duplicate_id) _ e in
      let ((u, m1), parsed, e2) =
        >>=-eq-ok (parse_upstream http c (clamp_weight c.weight) m) _ e1 in
      let (keys, loaded, e3) = >>=-eq-ok (load_all_keys u.id) _ e2 in
      let ((key_states, m2), states, done) = >>=-eq-ok (build_key_states http keys m1) _ e3 in
      round-IsBuilt snap m m1 m2 c u key_states v
        (bail_if-eq-ok (is_some (index_of c.id snap.upstream_index)) duplicate_id new)
        (parse_upstream_fields http c (clamp_weight c.weight) m parsed)
        (build_key_states-next http keys m1 {ks = key_states} {m' = m2} states)
        (ap (λ p. p.0) (sym (ok-injective done))) (ap (λ p. p.1) (sym (ok-injective done)))

  build_loop-IsBuilt :
      (cs : List UpstreamConfig) {base : ℕ} (acc : RouterSnapshot × Memory) {snap' : RouterSnapshot}
      {m' : Memory}
      → IsBuilt base acc.0 acc.1
      → build_loop http load_all_keys cs acc ≡ ok (snap', m')
      → IsBuilt base snap' m'
  unfolding build_loop
  build_loop-IsBuilt [] {base} acc v e =
      subst (λ (p : RouterSnapshot × Memory). IsBuilt base p.0 p.1) (ok-injective e) v
  build_loop-IsBuilt (c ∷ cs) acc v e =
      let (acc', one, rest) = >>=-eq-ok (build_one http load_all_keys c acc) _ e in
      build_loop-IsBuilt cs acc' (build_one-IsBuilt c acc.0 acc.1 v one) rest

  empty-IsBuilt :
      (m : Memory)
      → IsBuilt m.next_upstream (record { upstreams = []; upstream_index = []; schedule = [] }) m
  unfolding index_of
  empty-IsBuilt m = record {
    entries = tt;
    weights = λ i u e. absurd (cc);
    indexed = λ id i e. absurd (cc);
    found = λ i u e. absurd (cc);
    cells = λ i u e. absurd (cc);
    next = omega arith;
  }

  -- A snapshot that is built from a configuration is well formed: its schedule holds each
  -- upstream's position as often as the upstream's weight, from 1 to 100, and nothing else; its
  -- index gives exactly the positions of the ids; and its upstreams have fresh cells of their own.
  pub build_snapshot_from_configs-IsBuilt :
      (configs : List UpstreamConfig) (m : Memory) {snap : RouterSnapshot} {m' : Memory}
      → build_snapshot_from_configs http load_all_keys configs m ≡ ok (snap, m')
      → IsBuilt m.next_upstream snap m'
  unfolding build_snapshot_from_configs
  build_snapshot_from_configs-IsBuilt configs m e =
      let (_, loop) = >>-eq-ok (bail_if (is_empty configs) no_upstreams) _ e in
      build_loop-IsBuilt configs _ (empty-IsBuilt m) loop
