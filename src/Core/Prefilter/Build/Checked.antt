-- ===== src/Core/Prefilter/Build/Checked.antt =====
-- The account filters of a prefilter that the builder of crates/core/src/lib.rs makes.
use shipstern.Base.{
  ◌≡◌, refl, sym, Bool, true, false, Option, none, some, List, [], ◌∷◌, arith, length, ◌≤◌,
  Option-cases, Bool-cases, inl, inr, subst, under_if, unwrap_or, All, is_some,
}
use shipstern.Base.Results.{Result, ok, err, ◌>>=◌, ok_inj}
use shipstern.Core.Prefilter.{Bytes, AccountFilter, AccountPrefilter, Prefilter}
use shipstern.Core.Prefilter.Validate.{PrefilterError, max_filters, validate_each, validate_all}
use shipstern.Core.Prefilter.Validate.Accepts.{IsAccepted, data_sizes, validate_all_iff}
use shipstern.Core.Prefilter.Build.{
  PrefilterBuilder, set_opt, collect_pubkeys, mutate, mutated, builder, build, build_from, built,
  built_account, then_some,
}
use shipstern.Core.Prefilter.Build.Options.{
  accounts, account_owners, account_cuckoo, transaction_accounts_exclude,
  transaction_cuckoo_accounts_include, transaction_accounts, transaction_accounts_include,
  block_accounts_include, block_cuckoo_accounts_include, account_nonempty_txn_signature,
  transaction_vote, transaction_signature, transaction_token_accounts, slot_interslot_updates,
  slots, block_metas, accounts_include_all, block_include_accounts, block_include_transactions,
  block_include_entries, account_filters, dedup,
}
use shipstern.Core.Prefilter.Build.Settings.{
  Setting, set_accounts, set_account_owners, set_account_cuckoo, set_transaction_accounts_exclude,
  set_transaction_cuckoo_accounts_include, set_transaction_accounts,
  set_transaction_accounts_include, set_block_accounts_include, set_block_cuckoo_accounts_include,
  set_account_nonempty_txn_signature, set_transaction_vote, set_transaction_signature,
  set_transaction_token_accounts, set_slot_interslot_updates, set_slots, set_block_metas,
  set_accounts_include_all, set_block_include_accounts, set_block_include_transactions,
  set_block_include_entries, set_account_filters, set, set_each,
}

module _ (decode_base58 decode_base64 : Bytes → Option Bytes) where
  abbrev Checks : List AccountFilter → Type 0
  Checks fs = validate_all decode_base58 decode_base64 fs ≡ ok tt

  abbrev ChecksSome : Option (List AccountFilter) → Type 0
  ChecksSome none = Unit
  ChecksSome (some fs) = Checks fs

  kept :
      (b c : PrefilterBuilder)
      → c.account_filters ≡ b.account_filters
      → ChecksSome b.account_filters
      → ChecksSome c.account_filters
  kept b c e h = subst ChecksSome (sym e) h

  given_filters :
      (b : PrefilterBuilder) (fs : List AccountFilter)
      → ChecksSome b.account_filters
      → Checks fs
      → ChecksSome
          (mutated b (
            set_opt b.account_filters "account_filters" fs >>= λ value.
            ok (record b { account_filters = value }))).account_filters
  unfolding mutated set_opt
  given_filters b fs h c = elim (Option-cases b.account_filters) [
    | inl e ↦ rw e c
    | inr (old, e) ↦ rw (e) (subst ChecksSome e h)
  ]

  checked_filters :
      (b : PrefilterBuilder) (fs : List AccountFilter) (r : Result PrefilterError (Unit {0}))
      → validate_all decode_base58 decode_base64 fs ≡ r
      → ChecksSome b.account_filters
      → ChecksSome
          (mutated b (
            r >>= λ u. set_opt b.account_filters "account_filters" fs >>= λ value.
            ok (record b { account_filters = value }))).account_filters
  unfolding mutated
  checked_filters b fs (ok u) e h = given_filters b fs h e
  checked_filters b fs (err x) e h = h

  set-ChecksSome :
      (s : Setting) (b : PrefilterBuilder)
      → ChecksSome b.account_filters
      → ChecksSome (set decode_base58 decode_base64 s b).account_filters
  unfolding set accounts account_owners account_cuckoo transaction_accounts_exclude
      transaction_cuckoo_accounts_include transaction_accounts transaction_accounts_include
      block_accounts_include block_cuckoo_accounts_include account_nonempty_txn_signature
      transaction_vote transaction_signature transaction_token_accounts slot_interslot_updates slots
      block_metas accounts_include_all block_include_accounts block_include_transactions
      block_include_entries account_filters mutate mutated collect_pubkeys set_opt
  set-ChecksSome (set_accounts x) b h =
      kept b (set decode_base58 decode_base64 (set_accounts x) b) (ground arith) h
  set-ChecksSome (set_account_owners x) b h =
      kept b (set decode_base58 decode_base64 (set_account_owners x) b) (ground arith) h
  set-ChecksSome (set_account_cuckoo x) b h =
      kept b (set decode_base58 decode_base64 (set_account_cuckoo x) b) (ground arith) h
  set-ChecksSome (set_transaction_accounts_exclude x) b h =
      kept b (set decode_base58 decode_base64 (set_transaction_accounts_exclude x) b) (ground arith)
        h
  set-ChecksSome (set_transaction_cuckoo_accounts_include x) b h =
      kept b (set decode_base58 decode_base64 (set_transaction_cuckoo_accounts_include x) b)
        (ground arith) h
  set-ChecksSome (set_transaction_accounts x) b h =
      kept b (set decode_base58 decode_base64 (set_transaction_accounts x) b) (ground arith) h
  set-ChecksSome (set_transaction_accounts_include x) b h =
      kept b (set decode_base58 decode_base64 (set_transaction_accounts_include x) b) (ground arith)
        h
  set-ChecksSome (set_block_accounts_include x) b h =
      kept b (set decode_base58 decode_base64 (set_block_accounts_include x) b) (ground arith) h
  set-ChecksSome (set_block_cuckoo_accounts_include x) b h =
      kept b (set decode_base58 decode_base64 (set_block_cuckoo_accounts_include x) b)
        (ground arith) h
  set-ChecksSome (set_account_nonempty_txn_signature x) b h =
      kept b (set decode_base58 decode_base64 (set_account_nonempty_txn_signature x) b)
        (ground arith) h
  set-ChecksSome (set_transaction_vote x) b h =
      kept b (set decode_base58 decode_base64 (set_transaction_vote x) b) (ground arith) h
  set-ChecksSome (set_transaction_signature x) b h =
      kept b (set decode_base58 decode_base64 (set_transaction_signature x) b) (ground arith) h
  set-ChecksSome (set_transaction_token_accounts x) b h =
      kept b (set decode_base58 decode_base64 (set_transaction_token_accounts x) b) (ground arith) h
  set-ChecksSome (set_slot_interslot_updates x) b h =
      kept b (set decode_base58 decode_base64 (set_slot_interslot_updates x) b) (ground arith) h
  set-ChecksSome set_slots b h =
      kept b (set decode_base58 decode_base64 set_slots b) (ground arith) h
  set-ChecksSome set_block_metas b h =
      kept b (set decode_base58 decode_base64 set_block_metas b) (ground arith) h
  set-ChecksSome set_accounts_include_all b h =
      kept b (set decode_base58 decode_base64 set_accounts_include_all b) (ground arith) h
  set-ChecksSome set_block_include_accounts b h =
      kept b (set decode_base58 decode_base64 set_block_include_accounts b) (ground arith) h
  set-ChecksSome set_block_include_transactions b h =
      kept b (set decode_base58 decode_base64 set_block_include_transactions b) (ground arith) h
  set-ChecksSome set_block_include_entries b h =
      kept b (set decode_base58 decode_base64 set_block_include_entries b) (ground arith) h
  set-ChecksSome (set_account_filters it) b h = elim (Bool-cases (is_some b.error)) [
    | inl failed ↦ rw failed h
    | inr fine ↦ rw fine (checked_filters b (dedup it) _ refl h)
  ]

  set_each-ChecksSome :
      (ss : List Setting) (b : PrefilterBuilder)
      → ChecksSome b.account_filters
      → ChecksSome (set_each decode_base58 decode_base64 ss b).account_filters
  unfolding set_each
  set_each-ChecksSome [] b h = h
  set_each-ChecksSome (s ∷ ss) b h =
      set_each-ChecksSome ss (set decode_base58 decode_base64 s b) (set-ChecksSome s b h)

  abbrev ChecksAccount : Option AccountPrefilter → Type 0
  ChecksAccount none = Unit
  ChecksAccount (some a) = Checks a.filters

  unwrapped : (o : Option (List AccountFilter)) → ChecksSome o → Checks (unwrap_or o [])
  unfolding validate_all validate_each
  unwrapped none h = refl
  unwrapped (some fs) h = h

  then_some-Checks :
      (c : Bool) (a : AccountPrefilter) → Checks a.filters → ChecksAccount (then_some c a)
  then_some-Checks true a h = h
  then_some-Checks false a h = tt

  built-ChecksAccount :
      (b : PrefilterBuilder) → ChecksSome b.account_filters → ChecksAccount (built_account b)
  unfolding built_account
  built-ChecksAccount b h =
      under_if ChecksAccount b.accounts_include_all _ _ (λ e. unwrapped b.account_filters h)
        (λ e. then_some-Checks _ _ (unwrapped b.account_filters h))

  build-ChecksAccount :
      (b : PrefilterBuilder) (o : Option PrefilterError) (p : Prefilter)
      → ChecksSome b.account_filters
      → build_from o (built b) ≡ ok p
      → ChecksAccount p.account
  unfolding build_from built
  build-ChecksAccount b none p h e =
      subst (λ q. ChecksAccount q.account) (ok_inj e) (built-ChecksAccount b h)
  build-ChecksAccount b (some x) p h e = cc

  -- Whatever setters are called, a prefilter that is built has account filters that the server takes:
  -- at most four, at most one of them a data size, and each acceptable by itself.
  pub build-IsAccepted :
      (ss : List Setting) (p : Prefilter) (a : AccountPrefilter)
      → build (set_each decode_base58 decode_base64 ss builder) ≡ ok p
      → p.account ≡ some a
      → (length a.filters ≤ max_filters)
        × All (IsAccepted decode_base58 decode_base64) a.filters
        × (data_sizes a.filters ≤ 1)
  unfolding build
  build-IsAccepted ss p a e found =
      let b = set_each decode_base58 decode_base64 ss builder in
      (validate_all_iff decode_base58 decode_base64 a.filters).0 (
        subst ChecksAccount found
          (build-ChecksAccount b b.error p (set_each-ChecksSome ss builder tt) e))
