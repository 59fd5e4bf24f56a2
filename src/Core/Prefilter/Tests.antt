-- ===== src/Core/Prefilter/Tests.antt =====
-- Runs of the model of the prefilters, and their theorems at inputs that meet their hypotheses.
use shipstern.Base.{
  ℕ, ◌≤◌, ◌≡◌, ◌↔◌, refl, Bool, true, false, ◌||◌, Option, none, some, List, [], ◌∷◌, arith, ltb,
  length, if◌then◌else◌, All, keep,
}
use shipstern.Base.Maps.{Set, get as map_get}
use shipstern.Base.Maps.Sets.{same, same_refl, any, every}
use shipstern.Base.Results.{ok, err}
use shipstern.BlockCoordinator.Keys.{lex, lex_ord}
use shipstern.Core.Prefilter.{
  Bytes, Pubkey, AccountFilter, memcmp, data_size, bytes, AccountsDataSlice, AccountPrefilter,
  TransactionPrefilter, all, default_transaction, default_account, default_prefilter, filter_eq,
  data_eq, bool_eq,
}
use shipstern.Core.Prefilter.Comparisons.{same_account_filters}
use shipstern.Core.Prefilter.Comparisons.Filters.{occurrences, same_account_filters_iff}
use shipstern.Core.Prefilter.Merge.{merge_transaction}
use shipstern.Core.Prefilter.Received.{Seen, receives, HasSortedSets}
use shipstern.Core.Prefilter.Received.Merged.{merge_transaction-receives}
use shipstern.Core.Prefilter.Validate.{already_set, validate_all, max_filters}
use shipstern.Core.Prefilter.Validate.Accepts.{IsAccepted, data_sizes, validate_all_iff}
use shipstern.Core.Prefilter.Windows.{validate_slices, IsWindow, AreApart, validate_slices_iff}
use shipstern.Core.Prefilter.Build.{builder, build}
use shipstern.Core.Prefilter.Build.Options.{any_equal}
use shipstern.Core.Prefilter.Build.Settings.{
  Setting, set_slots, set_transaction_vote, set_account_filters, set_each, build-first_error,
}
use shipstern.Core.Prefilter.Build.Checked.{build-IsAccepted}
use shipstern.Core.Prefilter.Filters.{Filters, get}
use shipstern.Core.Prefilter.Wire.{CuckooFilter, wire_keys}
use shipstern.Core.Prefilter.Wire.Covers.{listing, holds_some, wire_keys-Covers}
use shipstern.Core.Prefilter.Wire.Request.{subscribe_request}
use shipstern.Core.Prefilter.Wire.Entries.{
  and_then, Corresponds, AccountWire, SlotWire, TransactionWire, BlockWire, BlockMetaWire,
  subscribe_request-entries,
}

-- Two orders of the same comparisons.
abbrev sizes : List AccountFilter
sizes = data_size 165 ∷ memcmp 0 (bytes (7 ∷ [])) ∷ []

abbrev sizes' : List AccountFilter
sizes' = memcmp 0 (bytes (7 ∷ [])) ∷ data_size 165 ∷ []

reordered : same_account_filters sizes sizes' ≡ true
unfolding same_account_filters filter_eq data_eq same lex
reordered = refl

same_account_filters-iff_example :
    (same_account_filters sizes sizes' ≡ true)
    ↔ ((f : AccountFilter) → occurrences f sizes ≡ occurrences f sizes')
same_account_filters-iff_example = same_account_filters_iff sizes sizes'

-- A decoder that knows no text.
abbrev no_text : Bytes → Option Bytes
no_text text = none

validate_all-iff_example : (validate_all no_text no_text sizes ≡ ok tt) ↔ (
    (length sizes ≤ max_filters) × All (IsAccepted no_text no_text) sizes × (data_sizes sizes ≤ 1))
validate_all-iff_example = validate_all_iff no_text no_text sizes

abbrev slices : List AccountsDataSlice
slices = record { offset = 0; length = 8 } ∷ record { offset = 8; length = 4 } ∷ []

validate_slices-iff_example :
    (validate_slices slices ≡ ok tt) ↔ (All IsWindow slices × AreApart slices)
validate_slices-iff_example = validate_slices_iff slices

abbrev twice : List Setting
twice = set_transaction_vote true ∷ set_transaction_vote false ∷ []

refused : build (set_each no_text no_text twice builder) ≡ err (already_set "transaction_vote")
unfolding build set_each
refused = refl

build-first_error_example :
    build (set_each no_text no_text (set_slots ∷ []) (set_each no_text no_text twice builder))
    ≡ err (already_set "transaction_vote")
unfolding set_each
build-first_error_example =
    build-first_error no_text no_text (set_slots ∷ []) (set_each no_text no_text twice builder)
      (already_set "transaction_vote") refl

abbrev sized : AccountPrefilter
sized = record default_account { filters = sizes }

build-IsAccepted_example :
    (length sizes ≤ max_filters) × All (IsAccepted no_text no_text) sizes × (data_sizes sizes ≤ 1)
unfolding build set_each any_equal
build-IsAccepted_example =
    build-IsAccepted no_text no_text (set_account_filters sizes ∷ [])
      (record default_prefilter { account = some sized }) sized refl refl

abbrev key : ℕ → Pubkey
key n = n ∷ []

abbrev either : ℕ → TransactionPrefilter
either n = record default_transaction {
  accounts_include = (key n, tt) ∷ [];
  accounts_exclude = (key 9, tt) ∷ [];
  vote = some false;
}

abbrev owned : TransactionPrefilter
owned = record (either 2) { token_accounts = some all }

abbrev tx : Seen
tx = record {
  account_keys = key 1 ∷ [];
  changed_owners = key 2 ∷ [];
  other_owners = key 9 ∷ [];
  is_vote = false;
  is_failed = false;
  signature = [];
}

either-HasSortedSets : HasSortedSets (either 1)
either-HasSortedSets = record { include = (tt, tt); exclude = (tt, tt); cuckoo = tt }

owned-HasSortedSets : HasSortedSets owned
owned-HasSortedSets = record { include = (tt, tt); exclude = (tt, tt); cuckoo = tt }

merge_transaction-receives_example : receives (merge_transaction (either 1) owned) tx ≡ true
unfolding receives any every map_get lex bool_eq
merge_transaction-receives_example =
    merge_transaction-receives (either 1) owned tx either-HasSortedSets owned-HasSortedSets refl
      refl refl

abbrev parsers : Filters
parsers = (key 1, record default_prefilter { transaction = some (either 1) }) ∷ []

-- A filter with room for two keys, that drops all others when a third comes.
abbrev stored : Pubkey → List Pubkey → Bool × List Pubkey
stored k f = if ltb (length f) 2 then (true, k ∷ f) else (false, k ∷ [])

stored_inserted :
    (k : Pubkey) (f : List Pubkey) → (stored k f).0 ≡ true → any (same k) (stored k f).1 ≡ true
unfolding any
stored_inserted k f h = ground (arith, same_refl k)

stored_keeps :
    (k j : Pubkey) (f : List Pubkey)
    → (stored k f).0 ≡ true
    → any (same j) f ≡ true
    → any (same j) (stored k f).1 ≡ true
unfolding any
stored_keeps k j f h e = ground arith

abbrev two_keys : CuckooFilter
two_keys = record {
  Filter = List Pubkey;
  with_capacity = λ n. some [];
  insert = stored;
  holds = λ f k. any (same k) f;
  inserted = stored_inserted;
  keeps = stored_keeps;
}

abbrev three : Set Pubkey
three = (key 1, tt) ∷ (key 2, tt) ∷ (key 3, tt) ∷ []

-- The third insertion fails, and the two keys that it drops are listed.
dropped :
    wire_keys two_keys (λ k. k) ((key 1, tt) ∷ []) three ≡ (key 1 ∷ key 2 ∷ [], some (key 3 ∷ []))
unfolding wire_keys any keep same lex map_get
dropped = refl

wire_keys-Covers_example :
    (listing (key 2) (wire_keys two_keys (λ k. k) [] three).0
      || holds_some two_keys (wire_keys two_keys (λ k. k) [] three).1 (key 2))
    ≡ true
unfolding map_get lex
wire_keys-Covers_example = wire_keys-Covers two_keys (λ k. k) [] three (key 2) refl

subscribe_request-entries_example :
    Corresponds
      (AccountWire two_keys (λ k. k))
      (and_then (λ p. p.account) (get (key 1) parsers))
      (map_get (key 1) (subscribe_request two_keys (λ k. k) parsers).accounts)
    × Corresponds
        (SlotWire two_keys (λ k. k))
        (and_then (λ p. p.slot) (get (key 1) parsers))
        (map_get (key 1) (subscribe_request two_keys (λ k. k) parsers).slots)
    × Corresponds
        (TransactionWire two_keys (λ k. k))
        (and_then (λ p. p.transaction) (get (key 1) parsers))
        (map_get (key 1) (subscribe_request two_keys (λ k. k) parsers).transactions)
    × Corresponds
        (BlockWire two_keys (λ k. k))
        (and_then (λ p. p.block) (get (key 1) parsers))
        (map_get (key 1) (subscribe_request two_keys (λ k. k) parsers).blocks)
    × Corresponds
        (BlockMetaWire two_keys (λ k. k))
        (and_then (λ p. p.block_meta) (get (key 1) parsers))
        (map_get (key 1) (subscribe_request two_keys (λ k. k) parsers).blocks_meta)
subscribe_request-entries_example =
    subscribe_request-entries two_keys (λ k. k) (key 1) parsers (tt, tt)
