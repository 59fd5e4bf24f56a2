-- ===== src/Core/Prefilter/Comparisons/Filters.antt =====
-- The equality of account filters of crates/core/src/lib.rs, and the multisets of them.
use shipstern.Base.{ℕ, ◌≡◌, ◌↔◌, refl, Bool, true, false, List, ap, arith}
use shipstern.Base.Maps.Sets.{same_refl, same→≡}
use shipstern.BlockCoordinator.Keys.{lex_ord}
use shipstern.Core.Prefilter.{
  MemcmpData, bytes, base58, base64, LamportsCmp, eq, ne, lt, gt, AccountFilter, memcmp, data_size,
  token_account_state, lamports, bool_eq, data_eq, cmp_eq, filter_eq,
}
use shipstern.Core.Prefilter.Comparisons.{same_account_filters}
use shipstern.Core.Prefilter.Comparisons.Multiset.{count, same_lists_iff}

pub bool_eq_refl : (b : Bool) → bool_eq b b ≡ true
unfolding bool_eq
bool_eq_refl true = refl
bool_eq_refl false = refl

pub bool_eq→≡ : (a b : Bool) → bool_eq a b ≡ true → a ≡ b
unfolding bool_eq
bool_eq→≡ true b h = ground arith
bool_eq→≡ false b h = ground arith

data_eq_refl : (d : MemcmpData) → data_eq d d ≡ true
unfolding data_eq
data_eq_refl (bytes a) = same_refl a
data_eq_refl (base58 a) = same_refl a
data_eq_refl (base64 a) = same_refl a

data_eq→≡ : (d e : MemcmpData) → data_eq d e ≡ true → d ≡ e
unfolding data_eq
data_eq→≡ (bytes a) (bytes b) h = ap bytes (same→≡ a b h)
data_eq→≡ (base58 a) (base58 b) h = ap base58 (same→≡ a b h)
data_eq→≡ (base64 a) (base64 b) h = ap base64 (same→≡ a b h)
data_eq→≡ (bytes a) (base58 b) h = cc
data_eq→≡ (bytes a) (base64 b) h = cc
data_eq→≡ (base58 a) (bytes b) h = cc
data_eq→≡ (base58 a) (base64 b) h = cc
data_eq→≡ (base64 a) (bytes b) h = cc
data_eq→≡ (base64 a) (base58 b) h = cc

cmp_eq_refl : (c : LamportsCmp) → cmp_eq c c ≡ true
unfolding cmp_eq
cmp_eq_refl (eq a) = ground arith
cmp_eq_refl (ne a) = ground arith
cmp_eq_refl (lt a) = ground arith
cmp_eq_refl (gt a) = ground arith

cmp_eq→≡ : (c d : LamportsCmp) → cmp_eq c d ≡ true → c ≡ d
unfolding cmp_eq
cmp_eq→≡ c d h = ground arith

pub filter_eq_refl : (f : AccountFilter) → filter_eq f f ≡ true
unfolding filter_eq
filter_eq_refl (memcmp i d) = ground (arith, data_eq_refl d)
filter_eq_refl (data_size n) = ground arith
filter_eq_refl (token_account_state b) = bool_eq_refl b
filter_eq_refl (lamports c) = cmp_eq_refl c

pub filter_eq→≡ : (f g : AccountFilter) → filter_eq f g ≡ true → f ≡ g
unfolding filter_eq
filter_eq→≡ (memcmp i d) (memcmp j e) h = ground (arith, data_eq→≡ d e)
filter_eq→≡ (data_size m) (data_size n) h = ground arith
filter_eq→≡ (token_account_state a) (token_account_state b) h = ground (arith, bool_eq→≡ a b)
filter_eq→≡ (lamports c) (lamports d) h = ap lamports (cmp_eq→≡ c d h)
filter_eq→≡ (memcmp i d) (data_size n) h = cc
filter_eq→≡ (memcmp i d) (token_account_state b) h = cc
filter_eq→≡ (memcmp i d) (lamports c) h = cc
filter_eq→≡ (data_size m) (memcmp j e) h = cc
filter_eq→≡ (data_size m) (token_account_state b) h = cc
filter_eq→≡ (data_size m) (lamports c) h = cc
filter_eq→≡ (token_account_state a) (memcmp j e) h = cc
filter_eq→≡ (token_account_state a) (data_size n) h = cc
filter_eq→≡ (token_account_state a) (lamports c) h = cc
filter_eq→≡ (lamports c) (memcmp j e) h = cc
filter_eq→≡ (lamports c) (data_size n) h = cc
filter_eq→≡ (lamports c) (token_account_state b) h = cc

-- How often a comparison stands in a list.
abbrev pub occurrences : AccountFilter → List AccountFilter → ℕ
occurrences = count filter_eq filter_eq_refl filter_eq→≡

-- The test on two lists of comparisons succeeds exactly when each comparison occurs equally often in
-- both, in whatever order.
pub same_account_filters_iff :
    (lhs rhs : List AccountFilter)
    → (same_account_filters lhs rhs ≡ true)
      ↔ ((f : AccountFilter) → occurrences f lhs ≡ occurrences f rhs)
unfolding same_account_filters
same_account_filters_iff = same_lists_iff filter_eq filter_eq_refl filter_eq→≡
