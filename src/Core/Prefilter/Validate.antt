-- ===== src/Core/Prefilter/Validate.antt =====
-- The errors and the checks of account filters and of data slices, crates/core/src/lib.rs. The
-- decoders of the crates bs58 and base64 are parameters; a message of theirs is left out.
pub mod Accepts
use Prim.Native.String.{String}
use shipstern.Base.{
  ℕ, zero, suc, ◌+◌, ◌^◌, ◌≡◌, Bool, true, false, ◌||◌, Option, none, some, List, [], ◌∷◌, ltb, leb,
  ◌==◌, length, if◌then◌else◌,
}
use shipstern.Base.Results.{Result, ok, err, ◌>>=◌, ◌>>◌}
use shipstern.Core.Prefilter.{
  Bytes, MemcmpData, bytes, base58, base64, AccountFilter, memcmp, data_size, token_account_state,
  lamports, AccountsDataSlice,
}

-- The measures and encodings that the messages name.
pub data Measure : Type 0 where
  base58_characters base64_characters decoded_bytes : Measure

pub data PrefilterError : Type 0 where
  already_set : String → PrefilterError
  bad_pubkey : Bytes → PrefilterError
  bad_memcmp_data : Measure → ℕ → PrefilterError
  empty_memcmp_data : ℕ → PrefilterError
  memcmp_data_too_large : ℕ → ℕ → ℕ → Measure → PrefilterError
  too_many_account_filters : ℕ → ℕ → PrefilterError
  repeated_data_size false_token_account_state : PrefilterError
  zero_length_data_slice : ℕ → PrefilterError
  data_slice_overflow data_slice_out_of_order data_slice_overlap : ℕ → ℕ → PrefilterError

abbrev pub Checked : Type 0
Checked = Result PrefilterError (Unit {0})

unfoldable pub check_memcmp_len : ℕ → ℕ → ℕ → Measure → Checked
check_memcmp_len len max offset unit =
    if ltb max len then err (memcmp_data_too_large offset len max unit) else ok tt

abbrev pub max_data_base58_size : ℕ
max_data_base58_size = 175

abbrev pub max_data_base64_size : ℕ
max_data_base64_size = 172

abbrev pub max_data_size : ℕ
max_data_size = 128

abbrev pub max_filters : ℕ
max_filters = 4

unfoldable pub decoded : Measure → ℕ → Option Bytes → Result PrefilterError Bytes
decoded unit offset none = err (bad_memcmp_data unit offset)
decoded unit offset (some b) = ok b

unfoldable pub check_decoded : ℕ → Bytes → Checked
unfolding check_memcmp_len
check_decoded offset [] = err (empty_memcmp_data offset)
check_decoded offset (b ∷ bs) =
    check_memcmp_len (length (b ∷ bs)) max_data_size offset decoded_bytes

unfoldable pub is_data_size : AccountFilter → Bool
is_data_size (data_size n) = true
is_data_size _ = false

unfoldable pub validate_next : Bool → Bool → Checked → Checked
validate_next true true rest = err repeated_data_size
validate_next _ _ rest = rest

module _ (decode_base58 decode_base64 : Bytes → Option Bytes) where
  unfoldable pub decode : ℕ → MemcmpData → Result PrefilterError Bytes
  unfolding check_memcmp_len decoded
  decode offset (bytes b) = ok b
  decode offset (base58 text) = do
    check_memcmp_len (length text) max_data_base58_size offset base58_characters
    decoded base58_characters offset (decode_base58 text)
  decode offset (base64 text) = do
    check_memcmp_len (length text) max_data_base64_size offset base64_characters
    decoded base64_characters offset (decode_base64 text)

  unfoldable pub validate : AccountFilter → Checked
  unfolding decode check_decoded
  validate (memcmp offset datum) = do b ← decode offset datum; check_decoded offset b
  validate (token_account_state false) = err false_token_account_state
  validate (token_account_state true) = ok tt
  validate (data_size n) = ok tt
  validate (lamports c) = ok tt

  -- The loop, with `saw_data_size`.
  unfoldable pub validate_each : Bool → List AccountFilter → Checked
  unfolding validate is_data_size validate_next
  validate_each saw [] = ok tt
  validate_each saw (f ∷ fs) = do
    validate f
    validate_next saw (is_data_size f) (validate_each (saw || is_data_size f) fs)

  unfoldable pub validate_all : List AccountFilter → Checked
  unfolding validate_each
  validate_all filters =
      if ltb max_filters (length filters)
      then err (too_many_account_filters (length filters) max_filters)
      else validate_each false filters
