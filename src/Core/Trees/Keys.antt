-- ===== src/Core/Trees/Keys.antt =====
-- The lookup of an account key, `AccountKeys::get` of crates/core/src/instruction.rs, across its three
-- lists.
use shipstern.Base.{
  ℕ, zero, suc, ◌-◌, ◌≡◌, refl, ap, ◌∙◌, Option, none, some, List, [], ◌∷◌, ◌++◌, arith, length,
  ◌==◌, if◌then◌else◌, unwrap_or, Option-cases, inl, inr,
}
use mathlib.Core.List.{append-nil}
use shipstern.Base.Results.{Result, ok, err}
use shipstern.Core.Logs.{Pubkey}
use shipstern.Core.Trees.{
  AccountKeys, AccountKeyError, invalid_index, invalid_key, nth, to_key, find_key, key_at,
}

-- A key has 32 bytes.
abbrev pub key_of : Option (List ℕ) → Option (Result AccountKeyError Pubkey)
key_of none = none
key_of (some k) = some (if length k == 32 then ok k else err invalid_key)

nth-append_some :
    {A : Type 0} (xs ys : List A) (i : ℕ) (a : A) → nth xs i ≡ some a → nth (xs ++ ys) i ≡ some a
nth-append_some [] ys i a h = cc
nth-append_some (x ∷ xs) ys zero a h = h
nth-append_some (x ∷ xs) ys (suc i) a h = nth-append_some xs ys i a h

nth-append_none :
    {A : Type 0} (xs ys : List A) (i : ℕ)
    → nth xs i ≡ none
    → nth (xs ++ ys) i ≡ nth ys (i - length xs)
nth-append_none [] ys i h = ap (nth ys) (minus_zero i)
  where
    minus_zero : (n : ℕ) → n ≡ n - 0
    minus_zero n = omega arith
nth-append_none (x ∷ xs) ys zero h = cc
nth-append_none (x ∷ xs) ys (suc i) h =
    nth-append_none xs ys i h ∙ ap (nth ys) (minus_suc i (length xs))
  where
    minus_suc : (m n : ℕ) → m - n ≡ suc m - suc n
    minus_suc m n = omega arith

abbrev joined : List (List (List ℕ)) → List (List ℕ)
joined [] = []
joined (ks ∷ rest) = ks ++ joined rest

find_key-joined :
    (lists : List (List (List ℕ))) (i : ℕ) → find_key i lists ≡ key_of (nth (joined lists) i)
unfolding find_key to_key
find_key-joined [] i = refl
find_key-joined (ks ∷ rest) i = elim (Option-cases (nth ks i)) [
  | inl e ↦
      rw (e, find_key, nth-append_none ks (joined rest) i e) (find_key-joined rest (i - length ks))
  | inr (k, e) ↦ rw (e, find_key, nth-append_some ks (joined rest) i k e)
]

-- The key at an index is the one at that index of the static, the writable and the readonly keys in
-- sequence, an error if it has not 32 bytes; past the last of them the index is refused.
pub key_at-joined :
    (keys : AccountKeys) (idx : ℕ)
    → key_at keys idx
      ≡ unwrap_or
          (key_of (nth (keys.static_keys ++ (keys.dynamic_rw ++ keys.dynamic_ro)) idx))
          (err (invalid_index idx))
unfolding key_at
key_at-joined keys idx =
    rw (find_key-joined (keys.static_keys ∷ keys.dynamic_rw ∷ keys.dynamic_ro ∷ []) idx) (
      ap
        (λ ks.
          unwrap_or (key_of (nth (keys.static_keys ++ (keys.dynamic_rw ++ ks)) idx))
            (err (invalid_index idx)))
        (append-nil keys.dynamic_ro))
