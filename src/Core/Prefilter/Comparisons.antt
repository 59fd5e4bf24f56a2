-- ===== src/Core/Prefilter/Comparisons.antt =====
-- `same_account_filters` of crates/core/src/lib.rs: two lists of comparisons as multisets, with the
-- map of signed counts that the code keeps.
pub mod Multiset
pub mod Filters
use shipstern.Base.{
  ℕ, zero, suc, ◌+◌, ◌≡◌, ◌↔◌, refl, Bool, true, false, ◌&&◌, not, Option, none, some, List, [],
  ◌∷◌, arith, ◌==◌, length, if◌then◌else◌, inl, inr, Bool-cases, is_some,
}
use shipstern.Base.Maps.{Map}
use shipstern.Core.Prefilter.{AccountFilter, filter_eq}

-- An `isize` that counts: the difference of two numbers of list entries.
pub data ℤ : Type 0 where
  pos negsuc : ℕ → ℤ

unfoldable pub succ : ℤ → ℤ
succ (pos n) = pos (suc n)
succ (negsuc zero) = pos 0
succ (negsuc (suc n)) = negsuc n

unfoldable pub pred : ℤ → ℤ
pred (pos zero) = negsuc 0
pred (pos (suc n)) = pos n
pred (negsuc n) = negsuc (suc n)

unfoldable pub is_zero : ℤ → Bool
is_zero (pos n) = n == 0
is_zero (negsuc n) = false

module _ {A : Type 0} (eq : A → A → Bool) where
  unfoldable pub lookup : A → Map A ℤ → Option ℤ
  lookup a [] = none
  lookup a ((b, z) ∷ m) = if eq a b then some z else lookup a m

  -- `*counts.entry(filter).or_default() += 1`
  unfoldable pub count_up : A → Map A ℤ → Map A ℤ
  unfolding succ
  count_up a [] = (a, succ (pos 0)) ∷ []
  count_up a ((b, z) ∷ m) =
      let rest = count_up a m in if eq a b then (b, succ z) ∷ m else (b, z) ∷ rest

  -- `*count -= 1` at a key that is there
  unfoldable pub count_down : A → Map A ℤ → Map A ℤ
  unfolding pred
  count_down a [] = []
  count_down a ((b, z) ∷ m) =
      let rest = count_down a m in if eq a b then (b, pred z) ∷ m else (b, z) ∷ rest

  unfoldable pub count_lhs : List A → Map A ℤ → Map A ℤ
  unfolding count_up
  count_lhs [] m = m
  count_lhs (a ∷ as') m = count_lhs as' (count_up a m)

  unfoldable pub all_zero : Map A ℤ → Bool
  unfolding is_zero
  all_zero [] = true
  all_zero ((a, z) ∷ m) = is_zero z && all_zero m

  -- The second loop, which returns at a filter that has no count, and the last test.
  unfoldable pub count_rhs : List A → Map A ℤ → Bool
  unfolding lookup count_down all_zero
  count_rhs [] m = all_zero m
  count_rhs (b ∷ bs) m = elim (lookup b m) [ none ↦ false | some z ↦ count_rhs bs (count_down b m) ]

  unfoldable pub same_lists : List A → List A → Bool
  unfolding count_lhs count_rhs
  same_lists lhs rhs = if length lhs == length rhs then count_rhs rhs (count_lhs lhs []) else false

unfoldable pub same_account_filters : List AccountFilter → List AccountFilter → Bool
unfolding same_lists
same_account_filters = same_lists filter_eq
