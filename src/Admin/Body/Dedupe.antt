-- ===== src/Admin/Body/Dedupe.antt =====
-- The keys that come out of a body: clean, and after `dedupe_keys` each once.
use gptload_rs.Prelude.{
  ℕ, ◌+◌, ◌≡◌, refl, ◌∙◌, ap, false, ◌&&◌, ◌||◌, not, Bool-cases, inl, inr, List, [], ◌∷◌, ◌++◌,
  All, All-append, if◌then◌else◌, arith,
}
use gptload_rs.Prelude.Text.{Str, str_eq, str_eq_iff, contains, contains-snoc, is_empty, trim}
use gptload_rs.Prelude.Trim.{trim_twice}
use gptload_rs.Prelude.Result.{ok, >>=-eq-ok, Result-cases}
use gptload_rs.State.Defs.{KeyState, Memory}
use gptload_rs.State.Snapshot.{Http, build_key_states, alloc_key, bearer}
use gptload_rs.Admin.Body.{line_keys, dedupe_loop, dedupe_keys, validate_loop, validate_keys}

-- A key that is not empty and has no blanks at its ends.
abbrev pub IsKey : Str → Type 0
IsKey k = (trim k ≡ k) × (is_empty k ≡ false)

-- No key stands twice.
abbrev pub IsUnique : List Str → Type 0
IsUnique [] = Unit
IsUnique (k ∷ keys) = (contains keys k ≡ false) × IsUnique keys

IsUnique-snoc :
    (l : List Str) (k : Str) → IsUnique l → contains l k ≡ false → IsUnique (l ++ k ∷ [])
unfolding contains
IsUnique-snoc [] k u h = ground arith
IsUnique-snoc (j ∷ l) k (a, u) h =
    let snoc = contains-snoc l k j in
    let here = str_eq_iff j k in
    let there = str_eq_iff k j in
    (ground (arith, snoc, here, there, a, h), IsUnique-snoc l k u (ground (arith, h)))

-- One round of the loop.
abbrev add_once : List Str → Str → List Str
add_once out key = if is_empty key then out else if contains out key then out else out ++ key ∷ []

add_once-IsUnique : (out : List Str) (key : Str) → IsUnique out → IsUnique (add_once out key)
add_once-IsUnique out key u = elim (Bool-cases (is_empty key)) [
  | inl e ↦ rw e u
  | inr e ↦ elim (Bool-cases (contains out key)) [
    | inl f ↦ rw (e, f) u
    | inr f ↦ rw (e, f) (IsUnique-snoc out key u f)
  ]
]

add_once-IsKey : (out : List Str) (k : Str) → All IsKey out → All IsKey (add_once out (trim k))
add_once-IsKey out k a = elim (Bool-cases (is_empty (trim k))) [
  | inl e ↦ rw e a
  | inr e ↦ elim (Bool-cases (contains out (trim k))) [
    | inl f ↦ rw (e, f) a
    | inr f ↦ rw (e, f) (All-append IsKey out (trim k ∷ []) a ((trim_twice k, e), tt))
  ]
]

add_once-contains :
    (out : List Str) (key j : Str)
    → contains (add_once out key) j ≡ (contains out j || not (is_empty key) && str_eq key j)
add_once-contains out key j =
    let snoc = contains-snoc out key j in let same = str_eq_iff key j in ground (arith, snoc, same)

dedupe_loop_lem :
    (keys out : List Str) (k : Str)
    → IsUnique out
    → All IsKey out
    → IsUnique (dedupe_loop keys out)
      × All IsKey (dedupe_loop keys out)
      × (contains (dedupe_loop keys out) k ≡ (contains out k || contains (line_keys keys) k))
unfolding dedupe_loop line_keys contains
dedupe_loop_lem [] out k u a = (u, a, ground arith)
dedupe_loop_lem (j ∷ keys) out k u a =
    let out' = add_once out (trim j) in
    let (u', a', c) =
      dedupe_loop_lem keys out' k (add_once-IsUnique out (trim j) u) (add_once-IsKey out j a) in
    let one = add_once-contains out (trim j) k in (u', a', c ∙ ground (arith, one))

-- `dedupe_keys` keeps the keys that are left when they are trimmed and the empty ones are dropped,
-- each of them once.
pub dedupe_keys_lem :
    (keys : List Str) (k : Str)
    → IsUnique (dedupe_keys keys)
      × All IsKey (dedupe_keys keys)
      × (contains (dedupe_keys keys) k ≡ contains (line_keys keys) k)
unfolding dedupe_keys contains
dedupe_keys_lem keys k = dedupe_loop_lem keys [] k tt tt

-- Keys that are clean stay as they are.
pub line_keys_same : (keys : List Str) → All IsKey keys → line_keys keys ≡ keys
unfolding line_keys
line_keys_same [] h = refl
line_keys_same (k ∷ keys) ((a, b), h) =
    let rest = line_keys_same keys h in
    let full : is_empty (trim k) ≡ false = ap is_empty a ∙ b in
    rw (full, line_keys) (ap (λ j. j ∷ line_keys keys) a ∙ ap (λ l. k ∷ l) rest)

abbrev pub keys_of : List KeyState → List Str
keys_of [] = []
keys_of (s ∷ states) = s.key ∷ keys_of states

module _ (http : Http) where
  -- The states that are built are those of the trimmed keys, and no upstream's cell is touched.
  pub build_key_states-keys_of :
      (keys : List Str) (m : Memory) {states : List KeyState} {m' : Memory}
      → build_key_states http keys m ≡ ok (states, m')
      → (keys_of states ≡ line_keys keys) × (m'.upstream_at ≡ m.upstream_at)
  unfolding build_key_states line_keys alloc_key
  build_key_states-keys_of [] m e = ground (arith, e)
  build_key_states-keys_of (k ∷ keys) m {states} {m'} e = elim (Bool-cases (is_empty (trim k))) [
    | inl skip ↦ rw skip (build_key_states-keys_of keys m (rw skip at e))
    | inr keep ↦ elim (Bool-cases (http.header_accepts (bearer (trim k)))) [
      | inr bad ↦ absurd (let bad_key = rw (keep, bad) at e in cc bad_key)
      | inl good ↦
          let (state, m1) = alloc_key (trim k) (bearer (trim k)) m in
          let kept = rw (keep, good) at e in
          let ((rest, m2), built, same) = >>=-eq-ok (build_key_states http keys m1) _ kept in
          let ih = build_key_states-keys_of keys m1 {states = rest} built in
          ground (arith, ih, same, keep)
    ]
  ]

  -- Keys that pass `validate_keys` can be built.
  validate_loop-builds :
      (keys : List Str) (n c : ℕ) (m : Memory)
      → validate_loop http keys n ≡ ok c
      → (r : List KeyState × Memory) × (build_key_states http keys m ≡ ok r)
  unfolding validate_loop build_key_states
  validate_loop-builds [] n c m e = (([], m), refl)
  validate_loop-builds (k ∷ keys) n c m e = elim (Bool-cases (is_empty (trim k))) [
    | inl skip ↦ let (r, done) = validate_loop-builds keys n c m (rw skip at e) in (r, rw skip done)
    | inr keep ↦ elim (Bool-cases (http.header_accepts (bearer (trim k)))) [
      | inr bad ↦ absurd (let bad_key = rw (keep, bad) at e in cc bad_key)
      | inl good ↦
          let (state, m1) = alloc_key (trim k) (bearer (trim k)) m in
          let ((rest, m2), done) = validate_loop-builds keys (n + 1) c m1 (rw (keep, good) at e) in
          ((state ∷ rest, m2), rw (keep, good, done) refl)
    ]
  ]

  pub validate_keys-builds :
      (keys : List Str) (m : Memory)
      → validate_keys http keys ≡ ok tt
      → (r : List KeyState × Memory) × (build_key_states http keys m ≡ ok r)
  unfolding validate_keys
  validate_keys-builds keys m e = elim (Result-cases (validate_loop http keys 0)) [
    | inl (why, f) ↦ absurd (ground (arith, e, f))
    | inr (c, f) ↦ validate_loop-builds keys 0 c m f
  ]
