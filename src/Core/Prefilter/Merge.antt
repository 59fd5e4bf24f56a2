-- ===== src/Core/Prefilter/Merge.antt =====
-- The merges of the prefilters, crates/core/src/lib.rs.
use shipstern.Base.{Bool, ◌&&◌, ◌||◌, Option, none, some, List, [], ◌∷◌, if◌then◌else◌}
use shipstern.Base.Maps.{retain, contains}
use shipstern.Base.Maps.Sets.{extend, same}
use shipstern.BlockCoordinator.Keys.{lex_ord}
use shipstern.Core.Prefilter.{
  CuckooAccounts, AccountPrefilter, TransactionPrefilter, TokenAccounts, all, balance_changed,
  BlockMetaPrefilter, BlockPrefilter, SlotPrefilter, Prefilter, default_prefilter, bool_eq, opt_eq,
  token_eq,
}
use shipstern.Core.Prefilter.Comparisons.{same_account_filters}

unfoldable pub merge_opt : {T : Type 0} → (T → T → T) → Option T → Option T → Option T
merge_opt f none r = r
merge_opt f (some l) none = some l
merge_opt f (some l) (some r) = some (f l r)

unfoldable pub merge_cuckoo : CuckooAccounts → CuckooAccounts → CuckooAccounts
merge_cuckoo l r = extend l r

-- A choice survives only when both sides agree.
unfoldable pub agreed : {T : Type 0} → (T → T → Bool) → Option T → Option T → Option T
agreed e l r = if opt_eq e l r then l else none

unfoldable pub merge_account : AccountPrefilter → AccountPrefilter → AccountPrefilter
unfolding agreed merge_cuckoo
merge_account l r = record {
  accounts = extend l.accounts r.accounts;
  owners = extend l.owners r.owners;
  filters = if same_account_filters l.filters r.filters then l.filters else [];
  nonempty_txn_signature = agreed bool_eq l.nonempty_txn_signature r.nonempty_txn_signature;
  cuckoo_accounts = merge_cuckoo l.cuckoo_accounts r.cuckoo_accounts;
}

-- The wider of two modes that differ.
unfoldable pub wider_tokens : Option TokenAccounts → Option TokenAccounts → Option TokenAccounts
wider_tokens (some all) r = some all
wider_tokens l (some all) = some all
wider_tokens l r = some balance_changed

unfoldable pub merge_failed : Option Bool → Option Bool → Option Bool
merge_failed (some a) (some b) = if bool_eq a b then some a else none
merge_failed l r = none

unfoldable pub merge_transaction :
    TransactionPrefilter → TransactionPrefilter → TransactionPrefilter
unfolding agreed merge_cuckoo wider_tokens merge_failed
merge_transaction l r =
    let same_tokens = opt_eq token_eq l.token_accounts r.token_accounts in
    record {
      accounts_include = extend l.accounts_include r.accounts_include;
      accounts_required = extend l.accounts_required r.accounts_required;
      accounts_exclude =
          if same_tokens
          then retain (λ k v. contains k r.accounts_exclude) l.accounts_exclude
          else [];
      vote = agreed bool_eq l.vote r.vote;
      signature = agreed same l.signature r.signature;
      token_accounts =
          if same_tokens then l.token_accounts else wider_tokens l.token_accounts r.token_accounts;
      failed = merge_failed l.failed r.failed;
      cuckoo_accounts_include = merge_cuckoo l.cuckoo_accounts_include r.cuckoo_accounts_include;
    }

unfoldable pub merge_block_meta : BlockMetaPrefilter → BlockMetaPrefilter → BlockMetaPrefilter
merge_block_meta l r = l

unfoldable pub merge_block : BlockPrefilter → BlockPrefilter → BlockPrefilter
unfolding merge_cuckoo
merge_block l r = record {
  accounts_include = extend l.accounts_include r.accounts_include;
  include_transactions = l.include_transactions || r.include_transactions;
  include_accounts = l.include_accounts || r.include_accounts;
  include_entries = l.include_entries || r.include_entries;
  cuckoo_accounts_include = merge_cuckoo l.cuckoo_accounts_include r.cuckoo_accounts_include;
}

unfoldable pub merge_interslot : Option Bool → Option Bool → Option Bool
merge_interslot (some a) (some b) = some (a || b)
merge_interslot (some a) none = some a
merge_interslot none r = r

unfoldable pub merge_slot : SlotPrefilter → SlotPrefilter → SlotPrefilter
unfolding merge_interslot
merge_slot l r = record {
  filter_by_commitment = l.filter_by_commitment && r.filter_by_commitment;
  interslot_updates = merge_interslot l.interslot_updates r.interslot_updates;
}

unfoldable pub merge : Prefilter → Prefilter → Prefilter
unfolding merge_opt merge_account merge_transaction merge_block_meta merge_block merge_slot
merge l r = record {
  account = merge_opt merge_account l.account r.account;
  transaction = merge_opt merge_transaction l.transaction r.transaction;
  block_meta = merge_opt merge_block_meta l.block_meta r.block_meta;
  block = merge_opt merge_block l.block r.block;
  slot = merge_opt merge_slot l.slot r.slot;
}

-- `Iterator::fold`
unfoldable pub fold_merge : Prefilter → List Prefilter → Prefilter
unfolding merge
fold_merge l [] = l
fold_merge l (r ∷ rs) = fold_merge (merge l r) rs

-- `FromIterator<Prefilter>`
unfoldable pub merge_all : List Prefilter → Prefilter
unfolding fold_merge
merge_all [] = default_prefilter
merge_all (first ∷ rest) = fold_merge first rest
