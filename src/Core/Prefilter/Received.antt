-- ===== src/Core/Prefilter/Received.antt =====
-- What a transaction prefilter of crates/core/src/lib.rs lets through, as the comments on its fields
-- say, and the parts of a merge.
pub mod Merged
use shipstern.Base.{
  ℕ, ◌≡◌, refl, sym, ap, ◌∙◌, subst, Bool, true, false, ◌&&◌, ◌||◌, not, Option, none, some, List,
  [], ◌∷◌, ◌++◌, arith, if◌then◌else◌, Bool-cases, inl, inr, under_if,
}
use shipstern.Base.Maps.{Set, keys, insert, retain, contains, IsSorted}
use shipstern.Base.Maps.Sets.{
  same, same_refl, same→≡, extend, any, every, meets, contains-extend, contains-retain, any_mono,
  any-append, every-extend, every_mono,
}
use shipstern.BlockCoordinator.Keys.{lex_ord}
use shipstern.Core.Prefilter.{
  Bytes, Pubkey, TransactionPrefilter, TokenAccounts, all, balance_changed, bool_eq, opt_eq,
  token_eq,
}
use shipstern.Core.Prefilter.Merge.{
  agreed, merge_cuckoo, wider_tokens, merge_failed, merge_transaction,
}

-- A transaction, by what the fields compare: its account keys, the owners of the token balances that
-- changed and of the others, its flags and its signature.
pub record Seen : Type 0 where
  pub account_keys : List Pubkey
  pub changed_owners : List Pubkey
  pub other_owners : List Pubkey
  pub is_vote : Bool
  pub is_failed : Bool
  pub signature : Bytes

-- The keys that the account sets are matched against.
abbrev pub touched : Option TokenAccounts → Seen → List Pubkey
touched none tx = tx.account_keys
touched (some balance_changed) tx = tx.account_keys ++ tx.changed_owners
touched (some all) tx = tx.account_keys ++ (tx.changed_owners ++ tx.other_owners)

abbrev pub is_nil : {A : Type 0} → List A → Bool
is_nil [] = true
is_nil (x ∷ xs) = false

-- No key is asked for.
abbrev pub includes_all : TransactionPrefilter → Bool
includes_all f = is_nil f.accounts_include && is_nil f.cuckoo_accounts_include

abbrev pub includes : TransactionPrefilter → List Pubkey → Bool
includes f ks =
    includes_all f || (meets ks f.accounts_include || meets ks f.cuckoo_accounts_include)

abbrev pub requires : Set Pubkey → List Pubkey → Bool
requires s ks = every (λ k. any (same k) ks) (keys s)

abbrev pub admits : {A : Type 0} → (A → A → Bool) → Option A → A → Bool
admits e none a = true
admits e (some b) a = e b a

unfoldable pub receives : TransactionPrefilter → Seen → Bool
receives f tx =
    let ks = touched f.token_accounts tx in
    includes f ks
    && (requires f.accounts_required ks
        && (not (meets ks f.accounts_exclude)
            && (admits bool_eq f.vote tx.is_vote
                && (admits same f.signature tx.signature && admits bool_eq f.failed tx.is_failed))))

-- The sets of a prefilter are in the order of their keys.
pub record HasSortedSets (f : TransactionPrefilter) : Type 0 where
  pub include : IsSorted f.accounts_include
  pub exclude : IsSorted f.accounts_exclude
  pub cuckoo : IsSorted f.cuckoo_accounts_include

any-weaken : (p : Pubkey → Bool) (xs ys : List Pubkey) → any p xs ≡ true → any p (xs ++ ys) ≡ true
any-weaken p xs ys h = ground (arith, any-append p xs ys)

-- A wider mode matches against more keys.
touched-wider :
    (p : Pubkey → Bool) (l r : Option TokenAccounts) (tx : Seen)
    → (any p (touched l tx) ≡ true → any p (touched (wider_tokens l r) tx) ≡ true)
      × (any p (touched r tx) ≡ true → any p (touched (wider_tokens l r) tx) ≡ true)
unfolding wider_tokens
touched-wider p l r tx = ground (
  arith,
  any-append p tx.account_keys tx.changed_owners,
  any-append p tx.account_keys (tx.changed_owners ++ tx.other_owners),
  any-append p tx.changed_owners tx.other_owners,
)

pub token_eq→≡ : (a b : TokenAccounts) → token_eq a b ≡ true → a ≡ b
unfolding token_eq
token_eq→≡ a b h = ground arith

pub opt_eq→≡ :
    {A : Type 0} (e : A → A → Bool)
    → ((a b : A) → e a b ≡ true → a ≡ b)
    → (l r : Option A) → opt_eq e l r ≡ true
    → l ≡ r
unfolding opt_eq
opt_eq→≡ e law none none h = refl
opt_eq→≡ e law (some a) (some b) h = ap some (law a b h)
opt_eq→≡ e law none (some b) h = cc
opt_eq→≡ e law (some a) none h = cc

-- What a merge takes of either side.
abbrev pub Both : {A : Type 0} → (A → Bool) → A → A → A → Type 0
Both p l r m = (p l ≡ true → p m ≡ true) × (p r ≡ true → p m ≡ true)

pub agreed-Both :
    {A : Type 0} (e : A → A → Bool) (a : A) (l r : Option A)
    → ((a b : A) → e a b ≡ true → a ≡ b)
    → Both (λ o. admits e o a) l r (agreed e l r)
unfolding agreed
agreed-Both e a l r law =
    under_if (Both (λ o. admits e o a) l r) (opt_eq e l r) l none
      (λ same'. (
        λ h. h,
        subst (λ o. admits e o a ≡ true → admits e l a ≡ true) (opt_eq→≡ e law l r same') (λ h. h),
      ))
      (λ differ. (λ h. refl, λ h. refl))

pub merge_failed-Both :
    (a : Bool) (l r : Option Bool) → Both (λ o. admits bool_eq o a) l r (merge_failed l r)
unfolding merge_failed bool_eq
merge_failed-Both a l r = ground arith

-- The mode of a merge matches what the mode of either side does.
unfoldable pub merged_tokens : TransactionPrefilter → TransactionPrefilter → Option TokenAccounts
merged_tokens l r =
    if opt_eq token_eq l.token_accounts r.token_accounts
    then l.token_accounts
    else wider_tokens l.token_accounts r.token_accounts

pub touched-Both :
    (p : Pubkey → Bool) (l r : TransactionPrefilter) (tx : Seen)
    → Both (λ o. any p (touched o tx)) l.token_accounts r.token_accounts (merged_tokens l r)
unfolding merged_tokens
touched-Both p l r tx =
    under_if (Both (λ o. any p (touched o tx)) l.token_accounts r.token_accounts)
      (opt_eq token_eq l.token_accounts r.token_accounts) _ _
      (λ same'. (
        λ h. h,
        subst (λ o. any p (touched o tx) ≡ true → any p (touched l.token_accounts tx) ≡ true)
            (opt_eq→≡ token_eq token_eq→≡ l.token_accounts r.token_accounts same') (λ h. h),
      ))
      (λ differ. touched-wider p l.token_accounts r.token_accounts tx)

pub is_nil-extend : (s t : Set Pubkey) → is_nil (extend s t) ≡ (is_nil s && is_nil t)
unfolding extend insert
is_nil-extend s [] = ground arith
is_nil-extend s ((k, v) ∷ t) = insert-some k v (extend s t) (is_nil s)
  where
    insert-some :
        (k : Pubkey) (v : Unit {0}) (s : Set Pubkey) (b : Bool)
        → is_nil (insert k v s) ≡ (b && false)
    insert-some k v [] b = ground arith
    insert-some k v ((j, w) ∷ s) b = ground arith

pub meets-extend :
    (ks : List Pubkey) (s t : Set Pubkey) → IsSorted t → Both (meets ks) s t (extend s t)
meets-extend ks s t h = (
  any_mono (λ k. contains k s) (λ k. contains k (extend s t)) ks
      (λ k e. ground (arith, contains-extend k s t h)),
  any_mono (λ k. contains k t) (λ k. contains k (extend s t)) ks
      (λ k e. ground (arith, contains-extend k s t h)),
)
