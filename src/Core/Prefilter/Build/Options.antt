-- ===== src/Core/Prefilter/Build/Options.antt =====
-- The setters of `PrefilterBuilder`, crates/core/src/lib.rs. The decoders of a
-- memcmp text are parameters.
use shipstern.Base.{Bool, true, false, ◌||◌, Option, List, [], ◌∷◌, if◌then◌else◌}
use shipstern.Base.Results.{ok, ◌>>=◌, ◌>>◌}
use shipstern.BlockCoordinator.Keys.{lex_ord}
use shipstern.Core.Prefilter.{Bytes, AccountFilter, TokenAccounts, filter_eq}
use shipstern.Core.Prefilter.Validate.{validate_all}
use shipstern.Core.Prefilter.Build.{PrefilterBuilder, set_opt, collect_pubkeys, mutate}

unfoldable pub any_equal : AccountFilter → List AccountFilter → Bool
unfolding filter_eq
any_equal f [] = false
any_equal f (g ∷ gs) = filter_eq f g || any_equal f gs

-- The collection into a `HashSet`: one of each comparison. The code keeps them in any order.
unfoldable pub dedup : List AccountFilter → List AccountFilter
dedup [] = []
dedup (f ∷ fs) = let rest = dedup fs in if any_equal f rest then rest else f ∷ rest

unfoldable pub accounts : List Bytes → PrefilterBuilder → PrefilterBuilder
unfolding set_opt collect_pubkeys mutate
accounts it b = mutate b λ this. do
  keys ← collect_pubkeys it
  value ← set_opt this.accounts "accounts" keys
  ok (record this { accounts = value })

unfoldable pub account_owners : List Bytes → PrefilterBuilder → PrefilterBuilder
unfolding set_opt collect_pubkeys mutate
account_owners it b = mutate b λ this. do
  keys ← collect_pubkeys it
  value ← set_opt this.account_owners "account_owners" keys
  ok (record this { account_owners = value })

unfoldable pub account_cuckoo : List Bytes → PrefilterBuilder → PrefilterBuilder
unfolding set_opt collect_pubkeys mutate
account_cuckoo it b = mutate b λ this. do
  keys ← collect_pubkeys it
  value ← set_opt this.account_cuckoo "account_cuckoo" keys
  ok (record this { account_cuckoo = value })

unfoldable pub transaction_accounts_exclude : List Bytes → PrefilterBuilder → PrefilterBuilder
unfolding set_opt collect_pubkeys mutate
transaction_accounts_exclude it b = mutate b λ this. do
  keys ← collect_pubkeys it
  value ← set_opt this.transaction_accounts_exclude "transaction_accounts_exclude" keys
  ok (record this { transaction_accounts_exclude = value })

unfoldable pub transaction_cuckoo_accounts_include :
    List Bytes → PrefilterBuilder → PrefilterBuilder
unfolding set_opt collect_pubkeys mutate
transaction_cuckoo_accounts_include it b = mutate b λ this. do
  keys ← collect_pubkeys it
  value ←
      set_opt this.transaction_cuckoo_accounts_include "transaction_cuckoo_accounts_include" keys
  ok (record this { transaction_cuckoo_accounts_include = value })

unfoldable pub transaction_accounts : List Bytes → PrefilterBuilder → PrefilterBuilder
unfolding set_opt collect_pubkeys mutate
transaction_accounts it b = mutate b λ this. do
  keys ← collect_pubkeys it
  value ← set_opt this.transaction_accounts_required "transaction_accounts_required" keys
  ok (record this { transaction_accounts_required = value })

unfoldable pub transaction_accounts_include : List Bytes → PrefilterBuilder → PrefilterBuilder
unfolding set_opt collect_pubkeys mutate
transaction_accounts_include it b = mutate b λ this. do
  keys ← collect_pubkeys it
  value ← set_opt this.transaction_accounts_include "transaction_accounts_include" keys
  ok (record this { transaction_accounts_include = value })

unfoldable pub block_accounts_include : List Bytes → PrefilterBuilder → PrefilterBuilder
unfolding set_opt collect_pubkeys mutate
block_accounts_include it b = mutate b λ this. do
  keys ← collect_pubkeys it
  value ← set_opt this.block_accounts_include "block_accounts_include" keys
  ok (record this { block_accounts_include = value })

unfoldable pub block_cuckoo_accounts_include : List Bytes → PrefilterBuilder → PrefilterBuilder
unfolding set_opt collect_pubkeys mutate
block_cuckoo_accounts_include it b = mutate b λ this. do
  keys ← collect_pubkeys it
  value ← set_opt this.block_cuckoo_accounts_include "block_cuckoo_accounts_include" keys
  ok (record this { block_cuckoo_accounts_include = value })

unfoldable pub account_nonempty_txn_signature : Bool → PrefilterBuilder → PrefilterBuilder
unfolding set_opt mutate
account_nonempty_txn_signature given b = mutate b λ this. do
  value ← set_opt this.account_nonempty_txn_signature "account_nonempty_txn_signature" given
  ok (record this { account_nonempty_txn_signature = value })

unfoldable pub transaction_vote : Bool → PrefilterBuilder → PrefilterBuilder
unfolding set_opt mutate
transaction_vote given b = mutate b λ this. do
  value ← set_opt this.transaction_vote "transaction_vote" given
  ok (record this { transaction_vote = value })

unfoldable pub transaction_signature : Bytes → PrefilterBuilder → PrefilterBuilder
unfolding set_opt mutate
transaction_signature given b = mutate b λ this. do
  value ← set_opt this.transaction_signature "transaction_signature" given
  ok (record this { transaction_signature = value })

unfoldable pub transaction_token_accounts : TokenAccounts → PrefilterBuilder → PrefilterBuilder
unfolding set_opt mutate
transaction_token_accounts given b = mutate b λ this. do
  value ← set_opt this.transaction_token_accounts "transaction_token_accounts" given
  ok (record this { transaction_token_accounts = value })

unfoldable pub slot_interslot_updates : Bool → PrefilterBuilder → PrefilterBuilder
unfolding set_opt mutate
slot_interslot_updates given b = mutate b λ this. do
  value ← set_opt this.slot_interslot_updates "slot_interslot_updates" given
  ok (record this { slot_interslot_updates = value })

unfoldable pub slots : PrefilterBuilder → PrefilterBuilder
unfolding mutate
slots b = mutate b λ this. ok (record this { slots = true })

unfoldable pub block_metas : PrefilterBuilder → PrefilterBuilder
unfolding mutate
block_metas b = mutate b λ this. ok (record this { block_metas = true })

unfoldable pub accounts_include_all : PrefilterBuilder → PrefilterBuilder
unfolding mutate
accounts_include_all b = mutate b λ this. ok (record this { accounts_include_all = true })

unfoldable pub block_include_accounts : PrefilterBuilder → PrefilterBuilder
unfolding mutate
block_include_accounts b = mutate b λ this. ok (record this { block_include_accounts = true })

unfoldable pub block_include_transactions : PrefilterBuilder → PrefilterBuilder
unfolding mutate
block_include_transactions b =
    mutate b λ this. ok (record this { block_include_transactions = true })

unfoldable pub block_include_entries : PrefilterBuilder → PrefilterBuilder
unfolding mutate
block_include_entries b = mutate b λ this. ok (record this { block_include_entries = true })

module _ (decode_base58 decode_base64 : Bytes → Option Bytes) where
  unfoldable pub account_filters : List AccountFilter → PrefilterBuilder → PrefilterBuilder
  unfolding set_opt mutate dedup validate_all
  account_filters it b = mutate b λ this. do
    validate_all decode_base58 decode_base64 (dedup it)
    value ← set_opt this.account_filters "account_filters" (dedup it)
    ok (record this { account_filters = value })
