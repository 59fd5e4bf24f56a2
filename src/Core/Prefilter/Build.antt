-- ===== src/Core/Prefilter/Build.antt =====
-- The builder of prefilters, `PrefilterBuilder` of crates/core/src/lib.rs. A list of byte strings
-- stands for what a caller iterates over, and a pubkey has 32 bytes.
pub mod Options
pub mod Settings
pub mod Checked
use Prim.Native.String.{String}
use shipstern.Base.{
  ℕ, ◌≡◌, Bool, true, false, ◌&&◌, ◌||◌, not, Option, none, some, List, [], ◌∷◌, ◌==◌, length,
  if◌then◌else◌, unwrap_or, is_some,
}
use shipstern.Base.Maps.{Set}
use shipstern.Base.Maps.Sets.{collect, any}
use shipstern.Base.Results.{Result, ok, err, ◌>>=◌, traverse}
use shipstern.BlockCoordinator.Keys.{lex_ord}
use shipstern.Core.Prefilter.{
  Bytes, Pubkey, CuckooAccounts, AccountFilter, TokenAccounts, AccountPrefilter,
  TransactionPrefilter, BlockMetaPrefilter, BlockPrefilter, SlotPrefilter, Prefilter,
  default_account, default_slot, filter_eq,
}
use shipstern.Core.Prefilter.Validate.{PrefilterError, already_set, bad_pubkey, validate_all}

pub record PrefilterBuilder : Type 0 where
  pub error : Option PrefilterError
  pub slots : Bool
  pub block_metas : Bool
  pub block_accounts_include : Option (Set Pubkey)
  pub block_include_accounts : Bool
  pub block_include_transactions : Bool
  pub block_include_entries : Bool
  pub block_cuckoo_accounts_include : Option CuckooAccounts
  pub accounts_include_all : Bool
  pub accounts : Option (Set Pubkey)
  pub account_owners : Option (Set Pubkey)
  pub account_filters : Option (List AccountFilter)
  pub account_nonempty_txn_signature : Option Bool
  pub account_cuckoo : Option CuckooAccounts
  pub transaction_accounts_exclude : Option (Set Pubkey)
  pub transaction_vote : Option Bool
  pub transaction_signature : Option Bytes
  pub transaction_token_accounts : Option TokenAccounts
  pub slot_interslot_updates : Option Bool
  pub transaction_accounts_include : Option (Set Pubkey)
  pub transaction_accounts_required : Option (Set Pubkey)
  pub transaction_cuckoo_accounts_include : Option CuckooAccounts

abbrev pub builder : PrefilterBuilder
builder = record {
  error = none;
  slots = false;
  block_metas = false;
  block_accounts_include = none;
  block_include_accounts = false;
  block_include_transactions = false;
  block_include_entries = false;
  block_cuckoo_accounts_include = none;
  accounts_include_all = false;
  accounts = none;
  account_owners = none;
  account_filters = none;
  account_nonempty_txn_signature = none;
  account_cuckoo = none;
  transaction_accounts_exclude = none;
  transaction_vote = none;
  transaction_signature = none;
  transaction_token_accounts = none;
  slot_interslot_updates = none;
  transaction_accounts_include = none;
  transaction_accounts_required = none;
  transaction_cuckoo_accounts_include = none;
}

abbrev pub Built : Type 0
Built = Result PrefilterError PrefilterBuilder

-- A refused value leaves the field as it was.
unfoldable pub set_opt {ℓ} : {T : Type ℓ} → Option T → String → T → Result PrefilterError (Option T)
set_opt (some old) field value = err (already_set field)
set_opt none field value = ok (some value)

unfoldable pub collect_pubkey : Bytes → Result PrefilterError Pubkey
collect_pubkey p = if length p == 32 then ok p else err (bad_pubkey p)

unfoldable pub collect_pubkeys : List Bytes → Result PrefilterError (Set Pubkey)
unfolding collect_pubkey traverse
collect_pubkeys it = do keys ← traverse collect_pubkey it; ok (collect keys)

unfoldable pub mutated : PrefilterBuilder → Built → PrefilterBuilder
mutated b (ok b') = b'
mutated b (err e) = record b { error = some e }

unfoldable pub mutate : PrefilterBuilder → (PrefilterBuilder → Built) → PrefilterBuilder
unfolding mutated
mutate b f = if is_some b.error then b else mutated b (f b)

-- The derived `==` against the default value.
abbrev is_nil : {A : Type 0} → List A → Bool
is_nil [] = true
is_nil (x ∷ xs) = false

unfoldable pub is_default_account : AccountPrefilter → Bool
is_default_account a =
    is_nil a.accounts
    && (is_nil a.owners
        && (is_nil a.filters
            && (not (is_some a.nonempty_txn_signature) && is_nil a.cuckoo_accounts)))

-- `failed` is left out: a build always has its default.
unfoldable pub is_default_transaction : TransactionPrefilter → Bool
is_default_transaction t =
    is_nil t.accounts_include
    && (is_nil t.accounts_exclude
        && (is_nil t.accounts_required
            && (not (is_some t.vote)
                && (not (is_some t.signature)
                    && (not (is_some t.token_accounts) && is_nil t.cuckoo_accounts_include)))))

unfoldable pub is_default_block : BlockPrefilter → Bool
is_default_block b =
    is_nil b.accounts_include
    && (not b.include_transactions
        && (not b.include_accounts && (not b.include_entries && is_nil b.cuckoo_accounts_include)))

unfoldable pub is_default_slot : SlotPrefilter → Bool
is_default_slot s = s.filter_by_commitment && not (is_some s.interslot_updates)

-- `bool::then_some`
abbrev pub then_some {ℓ} : {A : Type ℓ} → Bool → A → Option A
then_some true a = some a
then_some false a = none

unfoldable pub built_account : PrefilterBuilder → Option AccountPrefilter
unfolding is_default_account
built_account b =
    let account : AccountPrefilter = record {
      accounts = unwrap_or b.accounts [];
      owners = unwrap_or b.account_owners [];
      filters = unwrap_or b.account_filters [];
      nonempty_txn_signature = b.account_nonempty_txn_signature;
      cuckoo_accounts = unwrap_or b.account_cuckoo [];
    } in
    if b.accounts_include_all
    then some (record default_account {
      filters = account.filters;
      nonempty_txn_signature = account.nonempty_txn_signature;
    })
    else then_some (not (is_default_account account)) account

unfoldable pub built_transaction : PrefilterBuilder → Option TransactionPrefilter
unfolding is_default_transaction
built_transaction b =
    let transaction : TransactionPrefilter = record {
      accounts_include = unwrap_or b.transaction_accounts_include [];
      accounts_required = unwrap_or b.transaction_accounts_required [];
      accounts_exclude = unwrap_or b.transaction_accounts_exclude [];
      vote = b.transaction_vote;
      signature = b.transaction_signature;
      token_accounts = b.transaction_token_accounts;
      failed = some false;
      cuckoo_accounts_include = unwrap_or b.transaction_cuckoo_accounts_include [];
    } in
    then_some (not (is_default_transaction transaction)) transaction

unfoldable pub built_block : PrefilterBuilder → Option BlockPrefilter
unfolding is_default_block
built_block b =
    let block : BlockPrefilter = record {
      accounts_include = unwrap_or b.block_accounts_include [];
      include_transactions = b.block_include_transactions;
      include_accounts = b.block_include_accounts;
      include_entries = b.block_include_entries;
      cuckoo_accounts_include = unwrap_or b.block_cuckoo_accounts_include [];
    } in
    then_some (not (is_default_block block)) block

unfoldable pub built_slot : PrefilterBuilder → Option SlotPrefilter
unfolding is_default_slot
built_slot b =
    let slot : SlotPrefilter = record default_slot {
      interslot_updates = b.slot_interslot_updates;
    } in
    then_some (b.slots || not (is_default_slot slot)) slot

abbrev pub no_fields : BlockMetaPrefilter
no_fields = record {}

unfoldable pub built : PrefilterBuilder → Prefilter
unfolding built_account built_transaction built_block built_slot
built b = record {
  account = built_account b;
  transaction = built_transaction b;
  block_meta = then_some b.block_metas no_fields;
  block = built_block b;
  slot = built_slot b;
}

unfoldable pub build_from : Option PrefilterError → Prefilter → Result PrefilterError Prefilter
build_from (some e) p = err e
build_from none p = ok p

unfoldable pub build : PrefilterBuilder → Result PrefilterError Prefilter
unfolding build_from built
build b = build_from b.error (built b)
