-- ===== src/State/Upstreams/Replaced.antt =====
-- The snapshot that takes the place of the old one.
use mathlib.Core.List.{append-nil, append_assoc}
use gptload_rs.Prelude.{
  ℕ, ◌+◌, ◌≤◌, ◌<◌, ◌≡◌, refl, ◌∙◌, sym, ap, subst, some, List, [], ◌∷◌, ◌++◌, arith,
}
use gptload_rs.Prelude.Text.{Str, is_empty}
use gptload_rs.Prelude.Result.{
  Result, ok, >>=-eq-ok, >>-eq-ok, ok-injective, bail_if, no_upstreams, duplicate_id,
}
use gptload_rs.Config.{UpstreamConfig}
use gptload_rs.State.Defs.{Upstream, Memory, RouterSnapshot, update_other}
use gptload_rs.State.Select.{index_of}
use gptload_rs.State.Snapshot.{
  Http, build_key_states, parse_upstream, build_one, build_loop, build_snapshot_from_configs,
  is_some, clamp_weight,
}
use gptload_rs.State.Snapshot.Built.{build_key_states-next}
use gptload_rs.Admin.Body.Dedupe.{build_key_states-keys_of}
use gptload_rs.State.Upstreams.{config_of, configs_of}

-- A configuration with the weight that is used for it.
abbrev pub normalized : UpstreamConfig → UpstreamConfig
normalized c = record c { weight = some (clamp_weight c.weight) }

abbrev pub all_normalized : List UpstreamConfig → List UpstreamConfig
all_normalized [] = []
all_normalized (c ∷ cs) = normalized c ∷ all_normalized cs

configs_of-++ : (l r : List Upstream) → configs_of (l ++ r) ≡ configs_of l ++ configs_of r
configs_of-++ [] r = refl
configs_of-++ (u ∷ l) r = ap (λ cs. config_of u ∷ cs) (configs_of-++ l r)

module _ (http : Http) where
  parse_upstream-config_of :
      (c : UpstreamConfig) (weight : ℕ) (m : Memory) {u : Upstream} {m' : Memory}
      → parse_upstream http c weight m ≡ ok (u, m')
      → config_of u ≡ record c { weight = some weight }
  unfolding parse_upstream
  parse_upstream-config_of c weight m e = ground (arith, e)

module _ (http : Http) (load_all_keys : Str → Result (List Str)) where
  build_one-configs_of :
      (c : UpstreamConfig) (snap : RouterSnapshot) (m : Memory) {snap' : RouterSnapshot}
      {m' : Memory}
      → build_one http load_all_keys c (snap, m) ≡ ok (snap', m')
      → configs_of snap'.upstreams ≡ configs_of snap.upstreams ++ normalized c ∷ []
  unfolding build_one
  build_one-configs_of c snap m {snap'} {m'} e =
      let (new, e1) =
        >>-eq-ok (bail_if (is_some (index_of c.id snap.upstream_index)) duplicate_id) _ e in
      let ((u, m1), parsed, e2) =
        >>=-eq-ok (parse_upstream http c (clamp_weight c.weight) m) _ e1 in
      let (keys, loaded, e3) = >>=-eq-ok (load_all_keys u.id) _ e2 in
      let ((key_states, m2), states, done) = >>=-eq-ok (build_key_states http keys m1) _ e3 in
      let grown =
        ap (λ (p : RouterSnapshot × Memory). configs_of p.0.upstreams) (sym (ok-injective done)) in
      grown
      ∙ configs_of-++ snap.upstreams (u ∷ [])
      ∙ ap (λ d. configs_of snap.upstreams ++ d ∷ [])
          (parse_upstream-config_of http c (clamp_weight c.weight) m parsed)

  build_loop-configs_of :
      (cs : List UpstreamConfig) (acc : RouterSnapshot × Memory) {snap' : RouterSnapshot}
      {m' : Memory}
      → build_loop http load_all_keys cs acc ≡ ok (snap', m')
      → configs_of snap'.upstreams ≡ configs_of acc.0.upstreams ++ all_normalized cs
  unfolding build_loop
  build_loop-configs_of [] acc e =
      ap (λ (p : RouterSnapshot × Memory). configs_of p.0.upstreams) (sym (ok-injective e))
      ∙ sym (append-nil (configs_of acc.0.upstreams))
  build_loop-configs_of (c ∷ cs) acc {snap'} {m'} e =
      let (acc', one, rest) = >>=-eq-ok (build_one http load_all_keys c acc) _ e in
      build_loop-configs_of cs acc' {m' = m'} rest
      ∙ ap (λ l. l ++ all_normalized cs) (build_one-configs_of c acc.0 acc.1 {m' = acc'.1} one)
      ∙ append_assoc (configs_of acc.0.upstreams) (normalized c ∷ []) (all_normalized cs)

  -- A snapshot stands for the configurations that it was built from, with the weights clamped.
  pub build_snapshot_from_configs-configs_of :
      (configs : List UpstreamConfig) (m : Memory) {snap : RouterSnapshot} {m' : Memory}
      → build_snapshot_from_configs http load_all_keys configs m ≡ ok (snap, m')
      → configs_of snap.upstreams ≡ all_normalized configs
  unfolding build_snapshot_from_configs
  build_snapshot_from_configs-configs_of configs m {snap} {m'} e =
      let (_, loop) = >>-eq-ok (bail_if (is_empty configs) no_upstreams) _ e in
      build_loop-configs_of configs _ {m' = m'} loop

-- The cells that are taken stay as they are.
abbrev pub Keeps : Memory → Memory → Type 0
Keeps m m' = (c : ℕ) → c < m.next_upstream → m'.upstream_at c ≡ m.upstream_at c

parse_upstream-Keeps :
    (http : Http) (c : UpstreamConfig) (weight : ℕ) (m : Memory) {u : Upstream} {m' : Memory}
    → parse_upstream http c weight m ≡ ok (u, m')
    → Keeps m m' × (u.cell ≡ m.next_upstream) × (m'.next_upstream ≡ m.next_upstream + 1)
unfolding parse_upstream
parse_upstream-Keeps http c weight m {u} {m'} e =
    (λ i lt. ground (arith, e, lt), ground (arith, e), ground (arith, e))

module _ (http : Http) (load_all_keys : Str → Result (List Str)) where
  build_one-Keeps :
      (c : UpstreamConfig) (snap : RouterSnapshot) (m : Memory) {snap' : RouterSnapshot}
      {m' : Memory}
      → build_one http load_all_keys c (snap, m) ≡ ok (snap', m')
      → Keeps m m' × (m.next_upstream ≤ m'.next_upstream)
  unfolding build_one
  build_one-Keeps c snap m {snap'} {m'} e =
      let (new, e1) =
        >>-eq-ok (bail_if (is_some (index_of c.id snap.upstream_index)) duplicate_id) _ e in
      let ((u, m1), parsed, e2) =
        >>=-eq-ok (parse_upstream http c (clamp_weight c.weight) m) _ e1 in
      let (keys, loaded, e3) = >>=-eq-ok (load_all_keys u.id) _ e2 in
      let ((key_states, m2), states, done) = >>=-eq-ok (build_key_states http keys m1) _ e3 in
      let (kept, cell, next) =
        parse_upstream-Keeps http c (clamp_weight c.weight) m {u = u} {m' = m1} parsed in
      let (_, same) =
        build_key_states-keys_of http keys m1 {states = key_states} {m' = m2} states in
      let next' = build_key_states-next http keys m1 {ks = key_states} {m' = m2} states in
      let last = ap (λ (p : RouterSnapshot × Memory). p.1) (sym (ok-injective done)) in
      let after = ap (λ (n : Memory). n.next_upstream) last in
      (
        λ i lt.
            ap (λ (n : Memory). n.upstream_at i) last
            ∙ update_other m2.upstream_at _ {i = u.cell} {j = i}
                (λ hit. absurd (omega (arith, hit, cell, lt)))
            ∙ ap (λ f. f i) same
            ∙ kept i lt,
        omega (arith, after, next, next'),
      )

  build_loop-Keeps :
      (cs : List UpstreamConfig) (acc : RouterSnapshot × Memory) {snap' : RouterSnapshot}
      {m' : Memory}
      → build_loop http load_all_keys cs acc ≡ ok (snap', m')
      → Keeps acc.1 m' × (acc.1.next_upstream ≤ m'.next_upstream)
  unfolding build_loop
  build_loop-Keeps [] acc {snap'} {m'} e =
      subst
        (λ (p : RouterSnapshot × Memory).
          Keeps acc.1 p.1 × (acc.1.next_upstream ≤ p.1.next_upstream))
        (ok-injective e) (λ i lt. refl, omega arith)
  build_loop-Keeps (c ∷ cs) acc {snap'} {m'} e =
      let (acc', one, rest) = >>=-eq-ok (build_one http load_all_keys c acc) _ e in
      let (kept, more) = build_one-Keeps c acc.0 acc.1 {snap' = acc'.0} {m' = acc'.1} one in
      let (kept', more') = build_loop-Keeps cs acc' {snap' = snap'} {m' = m'} rest in
      (λ i lt. kept' i (omega (arith, lt, more)) ∙ kept i lt, omega (arith, more, more'))

  -- Building a snapshot leaves the cells of the upstreams that are there as they are.
  pub build_snapshot_from_configs-Keeps :
      (configs : List UpstreamConfig) (m : Memory) {snap : RouterSnapshot} {m' : Memory}
      → build_snapshot_from_configs http load_all_keys configs m ≡ ok (snap, m')
      → Keeps m m'
  unfolding build_snapshot_from_configs
  build_snapshot_from_configs-Keeps configs m {snap} {m'} e =
      let (_, loop) = >>-eq-ok (bail_if (is_empty configs) no_upstreams) _ e in
      (build_loop-Keeps configs (record { upstreams = []; upstream_index = []; schedule = [] }, m)
        {snap' = snap} {m' = m'} loop).0
