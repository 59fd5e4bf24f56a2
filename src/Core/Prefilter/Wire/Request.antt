-- ===== src/Core/Prefilter/Wire/Request.antt =====
-- `From<Filters> for SubscribeRequest` and the conversions that it uses, crates/core/src/lib.rs. The
-- messages of yellowstone-grpc-proto have the fields that the code fills.
use shipstern.Base.{ℕ, Bool, Option, none, some, List, [], ◌∷◌, map}
use shipstern.Base.Maps.{Map, keys}
use shipstern.BlockCoordinator.Keys.{lex_ord}
use shipstern.Core.Prefilter.{
  Bytes, Pubkey, MemcmpData, bytes, base58, base64, LamportsCmp, eq, ne, lt, gt, AccountFilter,
  memcmp, data_size, token_account_state, lamports, TokenAccounts, all, balance_changed,
  AccountsDataSlice, AccountPrefilter, TransactionPrefilter, BlockMetaPrefilter, BlockPrefilter,
  SlotPrefilter, Prefilter,
}
use shipstern.Core.Prefilter.Filters.{Filters}
use shipstern.Core.Prefilter.Wire.{CuckooFilter, wire_keys}

pub data WireData : Type 0 where
  wire_bytes wire_base58 wire_base64 : Bytes → WireData

unfoldable pub wire_data : MemcmpData → WireData
wire_data (bytes b) = wire_bytes b
wire_data (base58 text) = wire_base58 text
wire_data (base64 text) = wire_base64 text

pub data WireCmp : Type 0 where
  wire_eq wire_ne wire_lt wire_gt : ℕ → WireCmp

unfoldable pub wire_cmp : LamportsCmp → WireCmp
wire_cmp (eq n) = wire_eq n
wire_cmp (ne n) = wire_ne n
wire_cmp (lt n) = wire_lt n
wire_cmp (gt n) = wire_gt n

pub data TokenFlag : Type 0 where
  flag_all flag_balance_changed : TokenFlag

unfoldable pub wire_tokens : TokenAccounts → TokenFlag
wire_tokens all = flag_all
wire_tokens balance_changed = flag_balance_changed

pub data WireFilter : Type 0 where
  wire_memcmp : ℕ → Option WireData → WireFilter
  wire_datasize : ℕ → WireFilter
  wire_token_account_state : Bool → WireFilter
  wire_lamports : Option WireCmp → WireFilter

unfoldable pub wire_filter : AccountFilter → Option WireFilter
unfolding wire_data wire_cmp
wire_filter (memcmp offset datum) = some (wire_memcmp offset (some (wire_data datum)))
wire_filter (data_size n) = some (wire_datasize n)
wire_filter (token_account_state b) = some (wire_token_account_state b)
wire_filter (lamports c) = some (wire_lamports (some (wire_cmp c)))

-- `map` on an option, `filter_map` on the entries of a map.
abbrev pub option_map {ℓ κ} : {A : Type ℓ} {B : Type κ} → (A → B) → Option A → Option B
option_map f none = none
option_map f (some a) = some (f a)

abbrev pub push_entry {ℓ} : {W : Type ℓ} → Bytes → Option W → Map Bytes W → Map Bytes W
push_entry k none m = m
push_entry k (some w) m = (k, w) ∷ m

unfoldable pub filter_map {ℓ} : {W : Type ℓ} → (Prefilter → Option W) → Filters → Map Bytes W
filter_map f [] = []
filter_map f ((k, p) ∷ m) = push_entry k (f p) (filter_map f m)

module _ (c : CuckooFilter) (to_string : Pubkey → Bytes) where
  pub record FilterAccounts : Type 0 where
    pub account : List Bytes
    pub owner : List Bytes
    pub filters : List (Option WireFilter)
    pub nonempty_txn_signature : Option Bool
    pub cuckoo_accounts_filter : Option c.Filter

  pub record FilterSlots : Type 0 where
    pub filter_by_commitment : Option Bool
    pub interslot_updates : Option Bool

  pub record FilterTransactions : Type 0 where
    pub vote : Option Bool
    pub failed : Option Bool
    pub signature : Option Bytes
    pub account_include : List Bytes
    pub account_exclude : List Bytes
    pub account_required : List Bytes
    pub token_accounts : Option TokenFlag
    pub cuckoo_account_include : Option c.Filter

  pub record FilterBlocks : Type 0 where
    pub account_include : List Bytes
    pub include_transactions : Option Bool
    pub include_accounts : Option Bool
    pub include_entries : Option Bool
    pub cuckoo_account_include : Option c.Filter

  pub record FilterBlocksMeta : Type 0 where

  unfoldable pub of_account : AccountPrefilter → FilterAccounts
  unfolding wire_filter wire_keys
  of_account v =
      let (account, cuckoo) = wire_keys c to_string v.accounts v.cuckoo_accounts in
      record {
        account = account;
        owner = map to_string (keys v.owners);
        filters = map wire_filter v.filters;
        nonempty_txn_signature = v.nonempty_txn_signature;
        cuckoo_accounts_filter = cuckoo;
      }

  unfoldable pub of_slot : SlotPrefilter → FilterSlots
  of_slot v = record {
    filter_by_commitment = some v.filter_by_commitment;
    interslot_updates = v.interslot_updates;
  }

  unfoldable pub of_transaction : TransactionPrefilter → FilterTransactions
  unfolding wire_tokens wire_keys
  of_transaction v =
      let (included, cuckoo) = wire_keys c to_string v.accounts_include v.cuckoo_accounts_include in
      record {
        vote = v.vote;
        failed = v.failed;
        signature = v.signature;
        account_include = included;
        account_exclude = map to_string (keys v.accounts_exclude);
        account_required = map to_string (keys v.accounts_required);
        token_accounts = option_map wire_tokens v.token_accounts;
        cuckoo_account_include = cuckoo;
      }

  unfoldable pub of_block : BlockPrefilter → FilterBlocks
  unfolding wire_keys
  of_block v =
      let (included, cuckoo) = wire_keys c to_string v.accounts_include v.cuckoo_accounts_include in
      record {
        account_include = included;
        include_transactions = some v.include_transactions;
        include_accounts = some v.include_accounts;
        include_entries = some v.include_entries;
        cuckoo_account_include = cuckoo;
      }

  unfoldable pub of_block_meta : BlockMetaPrefilter → FilterBlocksMeta
  of_block_meta v = record {}

  pub record SubscribeRequest : Type 0 where
    pub accounts : Map Bytes FilterAccounts
    pub slots : Map Bytes FilterSlots
    pub transactions : Map Bytes FilterTransactions
    pub blocks : Map Bytes FilterBlocks
    pub blocks_meta : Map Bytes FilterBlocksMeta
    pub commitment : Option ℕ
    pub accounts_data_slice : List AccountsDataSlice
    pub from_slot : Option ℕ

  unfoldable pub subscribe_request : Filters → SubscribeRequest
  unfolding filter_map of_account of_slot of_transaction of_block of_block_meta
  subscribe_request value = record {
    accounts = filter_map (λ v. option_map of_account v.account) value;
    slots = filter_map (λ v. option_map of_slot v.slot) value;
    transactions = filter_map (λ v. option_map of_transaction v.transaction) value;
    blocks = filter_map (λ v. option_map of_block v.block) value;
    blocks_meta = filter_map (λ v. option_map of_block_meta v.block_meta) value;
    commitment = none;
    accounts_data_slice = [];
    from_slot = none;
  }
