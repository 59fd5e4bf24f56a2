-- ===== src/Core/Prefilter/Build/Settings.antt =====
-- A chain of calls of the setters of `PrefilterBuilder`, crates/core/src/lib.rs.
use shipstern.Base.{◌≡◌, refl, ◌∙◌, ap, Bool, Option, some, List, [], ◌∷◌}
use shipstern.Base.Results.{err}
use shipstern.Core.Prefilter.{Bytes, AccountFilter, TokenAccounts}
use shipstern.Core.Prefilter.Validate.{PrefilterError}
use shipstern.Core.Prefilter.Build.{PrefilterBuilder, mutate, build, build_from}
use shipstern.Core.Prefilter.Build.Options.{
  accounts, account_owners, account_cuckoo, transaction_accounts_exclude,
  transaction_cuckoo_accounts_include, transaction_accounts, transaction_accounts_include,
  block_accounts_include, block_cuckoo_accounts_include, account_nonempty_txn_signature,
  transaction_vote, transaction_signature, transaction_token_accounts, slot_interslot_updates,
  slots, block_metas, accounts_include_all, block_include_accounts, block_include_transactions,
  block_include_entries, account_filters,
}

-- A call of a setter.
pub data Setting : Type 0 where
  set_accounts set_account_owners set_account_cuckoo set_transaction_accounts_exclude
        set_transaction_cuckoo_accounts_include set_transaction_accounts
        set_transaction_accounts_include set_block_accounts_include
        set_block_cuckoo_accounts_include :
      List Bytes → Setting
  set_account_nonempty_txn_signature : Bool → Setting
  set_transaction_vote : Bool → Setting
  set_transaction_signature : Bytes → Setting
  set_transaction_token_accounts : TokenAccounts → Setting
  set_slot_interslot_updates : Bool → Setting
  set_slots set_block_metas set_accounts_include_all set_block_include_accounts
        set_block_include_transactions set_block_include_entries :
      Setting
  set_account_filters : List AccountFilter → Setting

module _ (decode_base58 decode_base64 : Bytes → Option Bytes) where
  unfoldable pub set : Setting → PrefilterBuilder → PrefilterBuilder
  unfolding accounts account_owners account_cuckoo transaction_accounts_exclude
      transaction_cuckoo_accounts_include transaction_accounts transaction_accounts_include
      block_accounts_include block_cuckoo_accounts_include account_nonempty_txn_signature
      transaction_vote transaction_signature transaction_token_accounts slot_interslot_updates slots
      block_metas accounts_include_all block_include_accounts block_include_transactions
      block_include_entries account_filters
  set (set_accounts it) = accounts it
  set (set_account_owners it) = account_owners it
  set (set_account_cuckoo it) = account_cuckoo it
  set (set_transaction_accounts_exclude it) = transaction_accounts_exclude it
  set (set_transaction_cuckoo_accounts_include it) = transaction_cuckoo_accounts_include it
  set (set_transaction_accounts it) = transaction_accounts it
  set (set_transaction_accounts_include it) = transaction_accounts_include it
  set (set_block_accounts_include it) = block_accounts_include it
  set (set_block_cuckoo_accounts_include it) = block_cuckoo_accounts_include it
  set (set_account_nonempty_txn_signature given) = account_nonempty_txn_signature given
  set (set_transaction_vote given) = transaction_vote given
  set (set_transaction_signature given) = transaction_signature given
  set (set_transaction_token_accounts given) = transaction_token_accounts given
  set (set_slot_interslot_updates given) = slot_interslot_updates given
  set set_slots = slots
  set set_block_metas = block_metas
  set set_accounts_include_all = accounts_include_all
  set set_block_include_accounts = block_include_accounts
  set set_block_include_transactions = block_include_transactions
  set set_block_include_entries = block_include_entries
  set (set_account_filters it) = account_filters decode_base58 decode_base64 it

  unfoldable pub set_each : List Setting → PrefilterBuilder → PrefilterBuilder
  unfolding set
  set_each [] b = b
  set_each (s ∷ ss) b = set_each ss (set s b)

  set-stuck :
      (s : Setting) (b : PrefilterBuilder) (e : PrefilterError) → b.error ≡ some e → set s b ≡ b
  unfolding set mutate
  set-stuck (set_accounts x) b e h = rw h
  set-stuck (set_account_owners x) b e h = rw h
  set-stuck (set_account_cuckoo x) b e h = rw h
  set-stuck (set_transaction_accounts_exclude x) b e h = rw h
  set-stuck (set_transaction_cuckoo_accounts_include x) b e h = rw h
  set-stuck (set_transaction_accounts x) b e h = rw h
  set-stuck (set_transaction_accounts_include x) b e h = rw h
  set-stuck (set_block_accounts_include x) b e h = rw h
  set-stuck (set_block_cuckoo_accounts_include x) b e h = rw h
  set-stuck (set_account_nonempty_txn_signature x) b e h = rw h
  set-stuck (set_transaction_vote x) b e h = rw h
  set-stuck (set_transaction_signature x) b e h = rw h
  set-stuck (set_transaction_token_accounts x) b e h = rw h
  set-stuck (set_slot_interslot_updates x) b e h = rw h
  set-stuck set_slots b e h = rw h
  set-stuck set_block_metas b e h = rw h
  set-stuck set_accounts_include_all b e h = rw h
  set-stuck set_block_include_accounts b e h = rw h
  set-stuck set_block_include_transactions b e h = rw h
  set-stuck set_block_include_entries b e h = rw h
  set-stuck (set_account_filters x) b e h = rw h

  set_each-stuck :
      (ss : List Setting) (b : PrefilterBuilder) (e : PrefilterError)
      → b.error ≡ some e
      → set_each ss b ≡ b
  unfolding set_each
  set_each-stuck [] b e h = refl
  set_each-stuck (s ∷ ss) b e h = ap (set_each ss) (set-stuck s b e h) ∙ set_each-stuck ss b e h

  -- Once a setter has failed, the build fails with that error, whatever setters follow.
  pub build-first_error :
      (ss : List Setting) (b : PrefilterBuilder) (e : PrefilterError)
      → b.error ≡ some e
      → build (set_each ss b) ≡ err e
  unfolding build build_from
  build-first_error ss b e h = rw (set_each-stuck ss b e h, h)
