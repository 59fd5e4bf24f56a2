-- ===== src/Core/Prefilter/Wire/Entries.antt =====
-- The entries of a subscription request, crates/core/src/lib.rs, parser by parser.
use shipstern.Base.{
  ◌≡◌, refl, ap, sym, subst, ◌∙◌, true, Option, none, some, List, [], ◌∷◌, arith, map, Bool-cases,
  inl, inr,
}
use shipstern.Base.Maps.{Map, Set, keys, get as map_get, IsSorted, Above, Above-trans, get-Above}
use shipstern.BlockCoordinator.Keys.{lex, lex_ord, lex_connex}
use shipstern.Core.Prefilter.{
  Bytes, Pubkey, MemcmpData, bytes, base58, base64, LamportsCmp, eq, ne, lt, gt, AccountFilter,
  memcmp, data_size, token_account_state, lamports, TokenAccounts, all, balance_changed,
  AccountPrefilter, TransactionPrefilter, BlockMetaPrefilter, BlockPrefilter, SlotPrefilter,
  Prefilter,
}
use shipstern.Core.Prefilter.Filters.{Filters, get}
use shipstern.Core.Prefilter.Wire.{CuckooFilter, wire_keys}
use shipstern.Core.Prefilter.Wire.Request.{
  WireData, wire_bytes, wire_base58, wire_base64, wire_data, WireCmp, wire_eq, wire_ne, wire_lt,
  wire_gt, wire_cmp, TokenFlag, flag_all, flag_balance_changed, wire_tokens, WireFilter,
  wire_memcmp, wire_datasize, wire_token_account_state, wire_lamports, wire_filter, FilterAccounts,
  FilterSlots, FilterTransactions, FilterBlocks, FilterBlocksMeta, option_map, push_entry,
  filter_map, subscribe_request, of_account, of_slot, of_transaction, of_block, of_block_meta,
}

-- `Option::and_then`
abbrev pub and_then {ℓ} : {W : Type ℓ} → (Prefilter → Option W) → Option Prefilter → Option W
and_then f none = none
and_then f (some p) = f p

module _ {ℓ} {W : Type ℓ} (f : Prefilter → Option W) where
  filter_map-Above : (k : Bytes) (m : Filters) → Above k m → Above k (filter_map f m)
  unfolding filter_map
  filter_map-Above k [] a = tt
  filter_map-Above k ((j, p) ∷ m) a =
      pushed k j (f p) a.0 (filter_map f m) (filter_map-Above k m a.1)
    where
      pushed :
          (k j : Bytes) (o : Option W)
          → lex k j ≡ true
          → (m : Map Bytes W) → Above k m
          → Above k (push_entry j o m)
      pushed k j none h m a = a
      pushed k j (some w) h m a = (h, a)

  get-push_entry :
      (k j : Bytes) (p : Prefilter) (o : Option W) (m : Filters)
      → f p ≡ o
      → Above j m
      → map_get k (filter_map f m) ≡ and_then f (map_get k m)
      → map_get k (push_entry j o (filter_map f m)) ≡ and_then f (map_get k ((j, p) ∷ m))
  unfolding map_get
  get-push_entry k j p (some w) m h a e = ground arith
  get-push_entry k j p none m h a e = elim (Bool-cases (lex k j)) [
    | inl before ↦
        rw before (get-Above k (filter_map f m) (filter_map-Above k m (Above-trans k j m before a)))
    | inr reached ↦ elim (Bool-cases (lex j k)) [
      | inl later ↦ rw (reached, later) e
      | inr here ↦
          rw (reached, here, h)
            (get-Above k (filter_map f m)
              (filter_map-Above k m (rw (lex_connex k j reached here) a)))
    ]
  ]

  get-filter_map :
      (k : Bytes) (m : Filters) → IsSorted m → map_get k (filter_map f m) ≡ and_then f (map_get k m)
  unfolding filter_map map_get
  get-filter_map k [] s = refl
  get-filter_map k ((j, p) ∷ m) s = get-push_entry k j p (f p) m refl s.0 (get-filter_map k m s.1)

-- The parts of a wire form, read back.
abbrev pub read_data : WireData → MemcmpData
read_data (wire_bytes b) = bytes b
read_data (wire_base58 text) = base58 text
read_data (wire_base64 text) = base64 text

abbrev pub read_cmp : WireCmp → LamportsCmp
read_cmp (wire_eq n) = eq n
read_cmp (wire_ne n) = ne n
read_cmp (wire_lt n) = lt n
read_cmp (wire_gt n) = gt n

abbrev pub read_filter : Option WireFilter → Option AccountFilter
read_filter none = none
read_filter (some (wire_memcmp offset none)) = none
read_filter (some (wire_memcmp offset (some datum))) = some (memcmp offset (read_data datum))
read_filter (some (wire_datasize n)) = some (data_size n)
read_filter (some (wire_token_account_state b)) = some (token_account_state b)
read_filter (some (wire_lamports none)) = none
read_filter (some (wire_lamports (some c))) = some (lamports (read_cmp c))

abbrev pub read_filters : List (Option WireFilter) → List (Option AccountFilter)
read_filters [] = []
read_filters (w ∷ ws) = read_filter w ∷ read_filters ws

abbrev pub present : List AccountFilter → List (Option AccountFilter)
present [] = []
present (f ∷ fs) = some f ∷ present fs

abbrev pub tokens_read : Option TokenFlag → Option TokenAccounts
tokens_read none = none
tokens_read (some flag_all) = some all
tokens_read (some flag_balance_changed) = some balance_changed

read_filter_lem : (f : AccountFilter) → read_filter (wire_filter f) ≡ some f
unfolding wire_filter wire_data wire_cmp
read_filter_lem (memcmp offset (bytes b)) = refl
read_filter_lem (memcmp offset (base58 text)) = refl
read_filter_lem (memcmp offset (base64 text)) = refl
read_filter_lem (data_size n) = refl
read_filter_lem (token_account_state b) = refl
read_filter_lem (lamports (eq n)) = refl
read_filter_lem (lamports (ne n)) = refl
read_filter_lem (lamports (lt n)) = refl
read_filter_lem (lamports (gt n)) = refl

read_filters_lem : (fs : List AccountFilter) → read_filters (map wire_filter fs) ≡ present fs
read_filters_lem [] = refl
read_filters_lem (f ∷ fs) =
    ap (λ o. o ∷ read_filters (map wire_filter fs)) (read_filter_lem f)
    ∙ ap (◌∷◌ (some f)) (read_filters_lem fs)

tokens_read_lem : (o : Option TokenAccounts) → tokens_read (option_map wire_tokens o) ≡ o
unfolding wire_tokens
tokens_read_lem none = refl
tokens_read_lem (some all) = refl
tokens_read_lem (some balance_changed) = refl

-- An entry stands where a part does, and is of that part.
abbrev pub Corresponds : {A W : Type 0} → (A → W → Type 0) → Option A → Option W → Type 0
Corresponds rel none none = Unit
Corresponds rel (some a) (some w) = rel a w
Corresponds rel none (some w) = ⊥
Corresponds rel (some a) none = ⊥

module _ (c : CuckooFilter) (to_string : Pubkey → Bytes) where
  -- The texts of a set of keys, in their order.
  abbrev pub texts : Set Pubkey → List Bytes
  texts s = map to_string (keys s)

  abbrev pub AccountWire : AccountPrefilter → FilterAccounts c to_string → Type 0
  AccountWire v w =
      ((w.account, w.cuckoo_accounts_filter) ≡ wire_keys c to_string v.accounts v.cuckoo_accounts)
      × (w.owner ≡ texts v.owners)
      × (read_filters w.filters ≡ present v.filters)
      × (w.nonempty_txn_signature ≡ v.nonempty_txn_signature)

  abbrev pub SlotWire : SlotPrefilter → FilterSlots c to_string → Type 0
  SlotWire v w =
      (w.filter_by_commitment ≡ some v.filter_by_commitment)
      × (w.interslot_updates ≡ v.interslot_updates)

  abbrev pub TransactionWire : TransactionPrefilter → FilterTransactions c to_string → Type 0
  TransactionWire v w =
      ((w.account_include, w.cuckoo_account_include)
        ≡ wire_keys c to_string v.accounts_include v.cuckoo_accounts_include)
      × (w.account_exclude ≡ texts v.accounts_exclude)
      × (w.account_required ≡ texts v.accounts_required)
      × (w.vote ≡ v.vote)
      × (w.failed ≡ v.failed)
      × (w.signature ≡ v.signature)
      × (tokens_read w.token_accounts ≡ v.token_accounts)

  abbrev pub BlockWire : BlockPrefilter → FilterBlocks c to_string → Type 0
  BlockWire v w =
      ((w.account_include, w.cuckoo_account_include)
        ≡ wire_keys c to_string v.accounts_include v.cuckoo_accounts_include)
      × (w.include_transactions ≡ some v.include_transactions)
      × (w.include_accounts ≡ some v.include_accounts)
      × (w.include_entries ≡ some v.include_entries)

  abbrev pub BlockMetaWire : BlockMetaPrefilter → FilterBlocksMeta c to_string → Type 0
  BlockMetaWire v w = Unit

  part-Corresponds :
      {A W : Type 0} (rel : A → W → Type 0) (w : A → W)
      → ((a : A) → rel a (w a))
      → (o : Option A) → Corresponds rel o (option_map w o)
  part-Corresponds rel w h none = tt
  part-Corresponds rel w h (some a) = h a

  entry-Corresponds :
      {A W : Type 0} (part : Prefilter → Option A) (rel : A → W → Type 0) (w : A → W)
      → ((a : A) → rel a (w a))
      → (k : Bytes) (filters : Filters) → IsSorted filters
      → Corresponds rel
          (and_then part (get k filters))
          (map_get k (filter_map (λ p. option_map w (part p)) filters))
  unfolding get
  entry-Corresponds part rel w h k filters s =
      subst (Corresponds rel (and_then part (get k filters)))
        (sym (get-filter_map (λ p. option_map w (part p)) k filters s))
        (of_found (map_get k filters))
    where
      of_found :
          (o : Option Prefilter)
          → Corresponds rel (and_then part o) (and_then (λ p. option_map w (part p)) o)
      of_found none = tt
      of_found (some p) = part-Corresponds rel w h (part p)

  -- The request has an entry of each kind for exactly the parsers whose prefilter has that part, and
  -- the entry says the same: the required accounts, the excluded ones and the owners each in their
  -- own list, the included ones as `wire_keys` gives them, and the options, flags and account
  -- filters as they were set, the filters in their order.
  pub subscribe_request-entries :
      (k : Bytes) (filters : Filters)
      → IsSorted filters
      → Corresponds AccountWire
          (and_then (λ p. p.account) (get k filters))
          (map_get k (subscribe_request c to_string filters).accounts)
        × Corresponds SlotWire
            (and_then (λ p. p.slot) (get k filters))
            (map_get k (subscribe_request c to_string filters).slots)
        × Corresponds TransactionWire
            (and_then (λ p. p.transaction) (get k filters))
            (map_get k (subscribe_request c to_string filters).transactions)
        × Corresponds BlockWire
            (and_then (λ p. p.block) (get k filters))
            (map_get k (subscribe_request c to_string filters).blocks)
        × Corresponds BlockMetaWire
            (and_then (λ p. p.block_meta) (get k filters))
            (map_get k (subscribe_request c to_string filters).blocks_meta)
  unfolding subscribe_request of_account of_slot of_transaction of_block of_block_meta
  subscribe_request-entries k filters s = (
    entry-Corresponds (λ p. p.account) AccountWire (of_account c to_string)
        (λ v. (refl, refl, read_filters_lem v.filters, refl)) k filters s,
    entry-Corresponds (λ p. p.slot) SlotWire (of_slot c to_string) (λ v. (refl, refl)) k filters s,
    entry-Corresponds (λ p. p.transaction) TransactionWire (of_transaction c to_string)
        (λ v. (refl, refl, refl, refl, refl, refl, tokens_read_lem v.token_accounts)) k filters s,
    entry-Corresponds (λ p. p.block) BlockWire (of_block c to_string)
        (λ v. (refl, refl, refl, refl)) k filters s,
    entry-Corresponds (λ p. p.block_meta) BlockMetaWire (of_block_meta c to_string) (λ v. tt) k
        filters s,
  )
