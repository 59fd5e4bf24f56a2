-- ===== src/Core/Lines.antt =====
-- The shapes of a Solana log line, crates/core/src/log_messages.rs.
use Prim.Native.Char.{Char, code}
use Prim.Native.String.{String, [], ◌∷◌}
use text.Mathlib.Text.{◌==◌ as str_eq}
use shipstern.Base.{
  ℕ, Bool, true, false, not, ◌&&◌, ◌||◌, Option, none, some, leb, ◌==◌, if◌then◌else◌,
}

pub data LogLineKind : Type 0 where
  invoke close other : LogLineKind

-- `str::strip_prefix`
unfoldable pub strip_prefix : String → String → Option String
strip_prefix [] s = some s
strip_prefix (c ∷ p) [] = none
strip_prefix (c ∷ p) (d ∷ s) =
    let rest = strip_prefix p s in if code c == code d then rest else none

abbrev pub push_front : Char → Option (String × String) → Option (String × String)
push_front c none = none
push_front c (some (a, b)) = some (c ∷ a, b)

-- `str::split_once` at a character
unfoldable pub split_once : ℕ → String → Option (String × String)
split_once b [] = none
split_once b (c ∷ s) =
    let rest = split_once b s in if code c == b then some ([], s) else push_front c rest

-- `s.split(c).next()`
unfoldable pub before : ℕ → String → String
before b [] = []
before b (c ∷ s) = let rest = before b s in if code c == b then [] else c ∷ rest

unfoldable pub all_digits : String → Bool
all_digits [] = true
all_digits (c ∷ s) = (leb 48 (code c) && leb (code c) 57) && all_digits s

abbrev pub is_empty : String → Bool
is_empty [] = true
is_empty (c ∷ s) = false

abbrev pub is_prefix : String → String → Bool
is_prefix p s = elim (strip_prefix p s) [ none ↦ false | some rest ↦ true ]

-- `str::contains`
unfoldable pub has_infix : String → String → Bool
unfolding strip_prefix
has_infix p [] = is_prefix p []
has_infix p (c ∷ s) = is_prefix p (c ∷ s) || has_infix p s

abbrev pub space : ℕ
space = 32

abbrev pub bracket : ℕ
bracket = 93

-- `invoke [<digits>]`, with anything after it.
unfoldable pub is_invoke_tail : String → Bool
unfolding strip_prefix before all_digits
is_invoke_tail tail = elim (strip_prefix "invoke [" tail) [
  | none ↦ false
  | some after ↦ not (is_empty (before bracket after)) && all_digits (before bracket after)
]

unfoldable pub is_close_tail : String → Bool
unfolding strip_prefix
is_close_tail tail = str_eq tail "success" || is_prefix "failed:" tail

unfoldable pub is_reserved : String → Bool
is_reserved second = str_eq second "log:" || (str_eq second "data:" || str_eq second "return:")

unfoldable pub classify_tokens : String → String → LogLineKind
unfolding is_invoke_tail is_close_tail is_reserved
classify_tokens second tail =
    if is_reserved second
    then other
    else if is_invoke_tail tail
    then invoke
    else if is_close_tail tail
    then close
    else other

unfoldable pub classify_rest : Option (String × String) → LogLineKind
unfolding classify_tokens
classify_rest none = other
classify_rest (some (second, tail)) = classify_tokens second tail

unfoldable pub classify_log_line : String → LogLineKind
unfolding strip_prefix split_once classify_rest
classify_log_line line = elim (strip_prefix "Program " line) [
  | none ↦ other
  | some rest ↦ classify_rest (split_once space rest)
]

abbrev pub is_invoke_kind : LogLineKind → Bool
is_invoke_kind invoke = true
is_invoke_kind _ = false

unfoldable pub is_outer_invoke : String → Bool
unfolding classify_log_line has_infix
is_outer_invoke line = is_invoke_kind (classify_log_line line) && has_infix " invoke [1]" line

-- The name between the first two spaces of a line that starts with `Program `.
unfoldable pub program_name : String → Option String
unfolding strip_prefix split_once
program_name line = elim (strip_prefix "Program " line) [
  | none ↦ none
  | some rest ↦ elim (split_once space rest) [ none ↦ none | some p ↦ some p.0 ]
]
