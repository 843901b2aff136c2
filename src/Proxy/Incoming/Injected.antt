-- ===== src/Proxy/Incoming/Injected.antt =====
-- When a stream is asked for its usage.
use mathlib.Core.List.{append-nil, append_assoc}
use gptload_rs.Prelude.{
  ℕ, ◌≤◌, ◌≡◌, refl, ◌∙◌, sym, ap, subst, true, false, Bool-cases, inl, inr, Option, Option-cases,
  none, some, List, [], ◌∷◌, ◌++◌, length, length-append, ltb, if◌then◌else◌, arith,
}
use gptload_rs.Prelude.Words.{saturating_add}
use gptload_rs.Prelude.Text.{Str, codes, str_eq, str_eq_iff}
use gptload_rs.Prelude.Result.{Result, ok, err}
use gptload_rs.Proxy.Json.{
  Value, boolean, object, Members, no_members, member, find, put, get, as_bool,
}
use gptload_rs.Proxy.Incoming.{
  read, max_request_body_bytes, read_body, value_or, or_false, include_usage, with_options,
  ensure_stream_usage,
}

-- A body that is read is within the limit, and is the chunks one after the other.
pub concat : List (Result (List ℕ)) → List ℕ
concat [] = []
concat (err _ ∷ chunks) = concat chunks
concat (ok chunk ∷ chunks) = chunk ++ concat chunks

find-put :
    (key : Str) (v : Value) (ms : Members) (j : Str)
    → find j (put key v ms) ≡ (if str_eq key j then some v else find j ms)
unfolding find put
find-put key v no_members j = refl
find-put key v (member k w ms) j =
    let a = str_eq_iff k key in
    let b = str_eq_iff k j in
    let c = str_eq_iff key j in ground (arith, a, b, c, find-put key v ms j)

-- `stream_options.include_usage` of a request.
abbrev pub flag_in : Option Value → Option Value
flag_in none = none
flag_in (some opts) = get opts (codes "include_usage")

abbrev pub usage_flag : Value → Option Value
usage_flag v = flag_in (get v (codes "stream_options"))

read_body-concat :
    (chunks : List (Result (List ℕ))) (buf b : List ℕ)
    → read_body chunks buf ≡ read b
    → length buf ≤ max_request_body_bytes
    → (b ≡ buf ++ concat chunks) × (length b ≤ max_request_body_bytes)
unfolding read_body concat
read_body-concat [] buf b e h =
    let same = ap (λ r. elim r [ read x ↦ x | _ ↦ buf ]) e in
    (sym same ∙ sym (append-nil buf), subst (λ x. length x ≤ max_request_body_bytes) same h)
read_body-concat (err why ∷ chunks) buf b e h = absurd (cc)
read_body-concat (ok chunk ∷ chunks) buf b e h =
    elim (Bool-cases (ltb max_request_body_bytes (saturating_add (length buf) (length chunk)))) [
      | inl f ↦ absurd (let large = rw f at e in cc large)
      | inr f ↦
          let size = length-append buf chunk in
          let (same, few) =
            read_body-concat chunks (buf ++ chunk) b (rw f at e) (ground (arith, f, size)) in
          (same ∙ append_assoc buf chunk (concat chunks), few)
    ]

-- A body that is read is the chunks one after the other, and has at most 16 MiB.
pub read_body_lem :
    (chunks : List (Result (List ℕ))) (b : List ℕ)
    → read_body chunks [] ≡ read b
    → (b ≡ concat chunks) × (length b ≤ max_request_body_bytes)
read_body_lem chunks b e = read_body-concat chunks [] b e (omega arith)

include_usage_lem :
    (opts : Members)
    → (include_usage opts).0 ≡ true
    → ((w : Value) × (find (codes "include_usage") opts ≡ some w)
        × (or_false (as_bool (some w)) ≡ false))
      × (find (codes "include_usage") (include_usage opts).1 ≡ some (boolean true))
      × ((i : Str)
          → find i (include_usage opts).1
            ≡ (if str_eq (codes "include_usage") i then some (boolean true) else find i opts))
unfolding include_usage
include_usage_lem opts e = elim (Option-cases (find (codes "include_usage") opts)) [
  | inl f ↦ absurd (let kept = rw (include_usage, f) at e in cc kept)
  | inr (w, f) ↦ elim (Bool-cases (or_false (as_bool (some w)))) [
    | inl g ↦ absurd (let kept = rw (include_usage, f, g) at e in cc kept)
    | inr g ↦
        let found = find-put (codes "include_usage") (boolean true) opts (codes "include_usage") in
        (
          (w, f, g),
          rw (include_usage, f, g) (found ∙ refl),
          λ i. rw (include_usage, f, g) (find-put (codes "include_usage") (boolean true) opts i),
        )
  ]
]

-- A member of `stream_options` of a request.
abbrev pub option_of : Value → Str → Option Value
option_of v i = elim (get v (codes "stream_options")) [ none ↦ none | some opts ↦ get opts i ]

-- What a change does: a flag that was not `true` is, and the other members are as they were: those
-- of the request, and those of its `stream_options`.
abbrev pub IsInjected : Value → Value → Str → Str → Type 0
IsInjected v v' j i =
    ((w : Value) × (usage_flag v ≡ some w) × (or_false (as_bool (some w)) ≡ false))
    × (usage_flag v' ≡ some (boolean true))
    × (get v' j
        ≡ (if str_eq (codes "stream_options") j then get v' (codes "stream_options") else get v j))
    × (option_of v' i
        ≡ (if str_eq (codes "include_usage") i then some (boolean true) else option_of v i))

object_options :
    (obj ms : Members) (j i : Str)
    → find (codes "stream_options") obj ≡ some (object ms)
    → (include_usage ms).0 ≡ true
    → IsInjected
        (object obj)
        (object (put (codes "stream_options") (object (include_usage ms).1) obj))
        j
        i
unfolding get
object_options obj ms j i at e =
    let ((w, had, off), on, others) = include_usage_lem ms e in
    let put_at = find-put (codes "stream_options") (object (include_usage ms).1) obj in
    let self = put_at (codes "stream_options") in
    (
      (w, ap flag_in at ∙ had, off),
      ap flag_in self ∙ on,
      elim (Bool-cases (str_eq (codes "stream_options") j)) [
        | inl f ↦ rw f (
            ap (λ k. find k (put (codes "stream_options") (object (include_usage ms).1) obj))
              (sym ((str_eq_iff (codes "stream_options") j).0 f)))
        | inr f ↦ rw f (put_at j ∙ rw f refl)
      ],
      ap (λ o. elim o [ none ↦ none | some opts ↦ get opts i ]) self
          ∙ others i
          ∙ ap
              (λ o.
                if str_eq (codes "include_usage") i
                then some (boolean true)
                else elim o [ none ↦ none | some opts ↦ get opts i ])
              (sym at),
    )

with_options_lem :
    (obj : Members) (o : Option Value) (j i : Str)
    → find (codes "stream_options") obj ≡ o
    → (with_options obj (value_or o (object no_members))).0 ≡ true
    → IsInjected (object obj) (with_options obj (value_or o (object no_members))).1 j i
unfolding with_options include_usage find
with_options_lem obj none j i at e = absurd (cc)
with_options_lem obj (some (object ms)) j i at e = object_options obj ms j i at e
with_options_lem obj (some _) j i at e = absurd (cc)

-- A request that is changed had a flag that was not `true`; afterwards the flag is `true`, and
-- every other member of the request, and every other member of its `stream_options`, is as it was.
pub ensure_stream_usage_lem :
    (v : Value) (j i : Str)
    → (ensure_stream_usage v).0 ≡ true
    → IsInjected v (ensure_stream_usage v).1 j i
unfolding ensure_stream_usage
ensure_stream_usage_lem (object obj) j i e =
    elim (Bool-cases (or_false (as_bool (find (codes "stream") obj)))) [
      | inr f ↦ absurd (let unchanged = rw (ensure_stream_usage, f) at e in cc unchanged)
      | inl f ↦
          rw (ensure_stream_usage, f)
            (with_options_lem obj (find (codes "stream_options") obj) j i refl
              (rw (ensure_stream_usage, f) at e))
    ]
ensure_stream_usage_lem v j i e = absurd (cc)
