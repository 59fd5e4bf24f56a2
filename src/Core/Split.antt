-- ===== src/Core/Split.antt =====
-- `split_logs_by_outer_ix` of crates/core/src/log_messages.rs.
use Prim.Native.String.{String}
use shipstern.Base.{
  ℕ, ◌+◌, ◌-◌, ◌≡◌, refl, true, false, ◌&&◌, List, [], ◌∷◌, ◌++◌, ◌⊎◌, inl, inr, arith, ◌==◌, All,
  All-append, Bool-cases,
}
use shipstern.Core.Lines.{LogLineKind, invoke, close, other, classify_log_line, is_outer_invoke}

abbrev pub step_depth : LogLineKind → ℕ → ℕ
step_depth invoke depth = depth + 1
step_depth close depth = depth - 1
step_depth other depth = depth

-- The lines at hand, if any, as an entry.
abbrev pub entry : List String → List (List String)
entry [] = []
entry (l ∷ ls) = (l ∷ ls) ∷ []

-- The loop, with the lines of the current entry and the depth.
unfoldable pub split_from : List String → ℕ → List String → List (List String)
unfolding is_outer_invoke classify_log_line
split_from current depth [] = entry current
split_from current depth (line ∷ lines) = elim ((depth == 0) && is_outer_invoke line) [
  | true ↦ entry current ++ split_from (line ∷ []) 1 lines
  | false ↦ elim (depth == 0) [
    | true ↦ split_from current depth lines
    | false ↦ split_from (current ++ line ∷ []) (step_depth (classify_log_line line) depth) lines
  ]
]

unfoldable pub split_logs_by_outer_ix : List String → List (List String)
unfolding split_from
split_logs_by_outer_ix logs = split_from [] 0 logs

-- The first line is an outer invoke line.
abbrev pub StartsOuter : List String → Type 0
StartsOuter [] = ⊥
StartsOuter (l ∷ ls) = is_outer_invoke l ≡ true

entry-StartsOuter :
    (current : List String) → (current ≡ []) ⊎ StartsOuter current → All StartsOuter (entry current)
entry-StartsOuter [] h = tt
entry-StartsOuter (l ∷ ls) (inl h) = absurd (ground arith)
entry-StartsOuter (l ∷ ls) (inr h) = (h, tt)

append-StartsOuter :
    (current : List String) (line : String)
    → StartsOuter current
    → StartsOuter (current ++ line ∷ [])
append-StartsOuter [] line h = absurd h
append-StartsOuter (l ∷ ls) line h = h

split_from-StartsOuter :
    (current : List String) (depth : ℕ) (lines : List String)
    → ((current ≡ []) × (depth ≡ 0)) ⊎ StartsOuter current
    → All StartsOuter (split_from current depth lines)
unfolding split_from
split_from-StartsOuter current depth [] (inl h) = entry-StartsOuter current (inl h.0)
split_from-StartsOuter current depth [] (inr h) = entry-StartsOuter current (inr h)
split_from-StartsOuter current depth (line ∷ lines) h =
    elim (Bool-cases ((depth == 0) && is_outer_invoke line)) [
      | inl e ↦
          rw (e, split_from)
            (All-append StartsOuter (entry current) (split_from (line ∷ []) 1 lines)
              (entry-StartsOuter current (settled h))
              (split_from-StartsOuter (line ∷ []) 1 lines (inr (outer e))))
      | inr e ↦ elim (Bool-cases (depth == 0)) [
        | inl z ↦ rw (e, z, split_from) (split_from-StartsOuter current depth lines h)
        | inr z ↦
            rw (e, z, split_from)
              (split_from-StartsOuter (current ++ line ∷ [])
                (step_depth (classify_log_line line) depth) lines
                (inr (append-StartsOuter current line (started h z))))
      ]
    ]
  where
    settled :
        ((current ≡ []) × (depth ≡ 0)) ⊎ StartsOuter current → (current ≡ []) ⊎ StartsOuter current
    settled (inl h) = inl h.0
    settled (inr h) = inr h

    outer : ((depth == 0) && is_outer_invoke line) ≡ true → is_outer_invoke line ≡ true
    outer e = ground arith

    started :
        ((current ≡ []) × (depth ≡ 0)) ⊎ StartsOuter current
        → (depth == 0) ≡ false
        → StartsOuter current
    started (inl h) z = absurd (ground arith)
    started (inr h) z = h

-- Every entry of the split begins with the `invoke [1]` line of an outer instruction.
pub split_logs-StartsOuter : (logs : List String) → All StartsOuter (split_logs_by_outer_ix logs)
unfolding split_logs_by_outer_ix
split_logs-StartsOuter logs = split_from-StartsOuter [] 0 logs (inl (refl, refl))
