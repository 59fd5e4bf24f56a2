-- ===== src/Core/Prefilter.antt =====
-- The data of the prefilters, crates/core/src/lib.rs. A `HashSet<Pubkey>` and the sorted vector of
-- `CuckooAccounts` are sets in the order of their keys; strings are their bytes.
pub mod Merge
pub mod Received
pub mod Comparisons
pub mod Validate
pub mod Windows
pub mod Build
pub mod Filters
pub mod Wire
mod Tests
use shipstern.Base.{
  ℕ, ◌≡◌, refl, Bool, true, false, ◌&&◌, not, Option, none, some, List, [], arith, ◌==◌,
}
use shipstern.Base.Maps.{Set}
use shipstern.Base.Maps.Sets.{same}
use shipstern.BlockCoordinator.Keys.{lex_ord}

abbrev pub Bytes : Type 0
Bytes = List ℕ

abbrev pub Pubkey : Type 0
Pubkey = List ℕ

abbrev pub CuckooAccounts : Type 0
CuckooAccounts = Set Pubkey

pub data MemcmpData : Type 0 where
  bytes base58 base64 : Bytes → MemcmpData

pub data LamportsCmp : Type 0 where
  eq ne lt gt : ℕ → LamportsCmp

pub data AccountFilter : Type 0 where
  memcmp : ℕ → MemcmpData → AccountFilter
  data_size : ℕ → AccountFilter
  token_account_state : Bool → AccountFilter
  lamports : LamportsCmp → AccountFilter

pub data TokenAccounts : Type 0 where
  all balance_changed : TokenAccounts

pub record AccountsDataSlice : Type 0 where
  pub offset : ℕ
  pub length : ℕ

pub record AccountPrefilter : Type 0 where
  pub accounts : Set Pubkey
  pub owners : Set Pubkey
  pub filters : List AccountFilter
  pub nonempty_txn_signature : Option Bool
  pub cuckoo_accounts : CuckooAccounts

pub record TransactionPrefilter : Type 0 where
  pub accounts_include : Set Pubkey
  pub accounts_required : Set Pubkey
  pub accounts_exclude : Set Pubkey
  pub vote : Option Bool
  pub signature : Option Bytes
  pub token_accounts : Option TokenAccounts
  pub failed : Option Bool
  pub cuckoo_accounts_include : CuckooAccounts

pub record BlockMetaPrefilter : Type 0 where

pub record BlockPrefilter : Type 0 where
  pub accounts_include : Set Pubkey
  pub include_transactions : Bool
  pub include_accounts : Bool
  pub include_entries : Bool
  pub cuckoo_accounts_include : CuckooAccounts

pub record SlotPrefilter : Type 0 where
  pub filter_by_commitment : Bool
  pub interslot_updates : Option Bool

pub record Prefilter : Type 0 where
  pub account : Option AccountPrefilter
  pub transaction : Option TransactionPrefilter
  pub block_meta : Option BlockMetaPrefilter
  pub block : Option BlockPrefilter
  pub slot : Option SlotPrefilter

abbrev pub default_account : AccountPrefilter
default_account = record {
  accounts = [];
  owners = [];
  filters = [];
  nonempty_txn_signature = none;
  cuckoo_accounts = [];
}

abbrev pub default_transaction : TransactionPrefilter
default_transaction = record {
  accounts_include = [];
  accounts_required = [];
  accounts_exclude = [];
  vote = none;
  signature = none;
  token_accounts = none;
  failed = some false;
  cuckoo_accounts_include = [];
}

abbrev pub default_slot : SlotPrefilter
default_slot = record { filter_by_commitment = true; interslot_updates = none }

abbrev pub default_prefilter : Prefilter
default_prefilter = record {
  account = none;
  transaction = none;
  block_meta = none;
  block = none;
  slot = none;
}

-- The derived equalities.
unfoldable pub bool_eq : Bool → Bool → Bool
bool_eq true b = b
bool_eq false b = not b

unfoldable pub opt_eq : {A : Type 0} → (A → A → Bool) → Option A → Option A → Bool
opt_eq e none none = true
opt_eq e (some a) (some b) = e a b
opt_eq e _ _ = false

unfoldable pub token_eq : TokenAccounts → TokenAccounts → Bool
token_eq all all = true
token_eq balance_changed balance_changed = true
token_eq _ _ = false

unfoldable pub data_eq : MemcmpData → MemcmpData → Bool
data_eq (bytes a) (bytes b) = same a b
data_eq (base58 a) (base58 b) = same a b
data_eq (base64 a) (base64 b) = same a b
data_eq _ _ = false

unfoldable pub cmp_eq : LamportsCmp → LamportsCmp → Bool
cmp_eq (eq a) (eq b) = a == b
cmp_eq (ne a) (ne b) = a == b
cmp_eq (lt a) (lt b) = a == b
cmp_eq (gt a) (gt b) = a == b
cmp_eq _ _ = false

unfoldable pub filter_eq : AccountFilter → AccountFilter → Bool
unfolding bool_eq
filter_eq (memcmp i a) (memcmp j b) = i == j && data_eq a b
filter_eq (data_size a) (data_size b) = a == b
filter_eq (token_account_state a) (token_account_state b) = bool_eq a b
filter_eq (lamports a) (lamports b) = cmp_eq a b
filter_eq _ _ = false
