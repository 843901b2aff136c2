-- ===== src/Prelude/Split.antt =====
-- Text in pieces: `split`, `splitn(2, …)`, `lines` and `parse::<usize>` of the standard library.
use Prim.Native.Nat.{ℕ, ◌+◌, ◌-◌, ◌*◌}
use mathlib.Core.Bool.{Bool, ◌&&◌}
use mathlib.Core.Option.{Option, none, some}
use mathlib.Core.List.{List, [], ◌∷◌}
use gptload_rs.Prelude.Tests.{◌==◌, leb, if◌then◌else◌}
use gptload_rs.Prelude.Words.{u64_max}
use gptload_rs.Prelude.Text.{Str}

-- A code point in front of the first piece.
abbrev pub in_front : ℕ → List Str → List Str
in_front a [] = (a ∷ []) ∷ []
in_front a (p ∷ ps) = (a ∷ p) ∷ ps

-- `s.split(c)`: there is always a piece.
unfoldable pub split : ℕ → Str → List Str
split c [] = [] ∷ []
split c (a ∷ s) = let rest = split c s in if a == c then [] ∷ rest else in_front a rest

-- `s.splitn(2, c)`: what stands in front of the first `c`, and what stands behind it, if there is one.
unfoldable pub split_once : ℕ → Str → Str × Option Str
split_once c [] = ([], none)
split_once c (a ∷ s) =
    let (before, after) = split_once c s in if a == c then ([], some s) else (a ∷ before, after)

-- `s.lines()`, up to a carriage return at the end of a line.
abbrev pub without_last : List Str → List Str
without_last [] = []
without_last ([] ∷ []) = []
without_last ((c ∷ p) ∷ []) = (c ∷ p) ∷ []
without_last (p ∷ q ∷ ps) = p ∷ without_last (q ∷ ps)

unfoldable pub lines : Str → List Str
unfolding split
lines s = without_last (split b'\n' s)

abbrev pub is_digit : ℕ → Bool
is_digit c = leb b'0' c && leb c b'9'

-- The digits of a usize; `none` on any other code point and on overflow.
unfoldable pub parse_digits : Str → ℕ → Option ℕ
parse_digits [] n = some n
parse_digits (c ∷ s) n =
    let next = n * 10 + (c - b'0') in
    let rest = parse_digits s next in if is_digit c && leb next u64_max then rest else none

-- `s.parse::<usize>().ok()`: a sign `+` may stand in front.
unfoldable pub parse_usize : Str → Option ℕ
unfolding parse_digits
parse_usize [] = none
parse_usize (c ∷ []) = parse_digits (c ∷ []) 0
parse_usize (c ∷ d ∷ s) = if c == b'+' then parse_digits (d ∷ s) 0 else parse_digits (c ∷ d ∷ s) 0
