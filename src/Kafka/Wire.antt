-- ===== src/Kafka/Wire.antt =====
-- The Confluent wire format of crates/kafka-sink/src/schema_registry.rs. A schema id, an i32, is its
-- bit pattern.
use shipstern.Base.{
  ℕ, zero, suc, ◌+◌, ◌*◌, ◌/◌, ◌%◌, ◌^◌, List, [], ◌∷◌, ◌++◌, ◌==◌, length, if◌then◌else◌,
}
use shipstern.Core.Prefilter.{Bytes}

-- An i32 that is at least 0, or `-1 - n`.
pub data Index : Type 0 where
  nonneg negative : ℕ → Index

pub record RegisteredSchema : Type 0 where
  pub schema_id : ℕ
  pub message_index : Index

-- `(value << 1) ^ (value >> 63)`
unfoldable pub zigzag : Index → ℕ
zigzag (nonneg n) = 2 * n
zigzag (negative n) = 2 * n + 1

-- The iterator `ZigzagIter`, with fuel for its bytes; a u64 has at most ten.
unfoldable pub varint : ℕ → ℕ → Bytes
varint zero value = []
varint (suc fuel) value =
    let rest = varint fuel (value / 128) in
    if value / 128 == 0 then (value % 128) ∷ [] else (value % 128 + 128) ∷ rest

unfoldable pub encode_zigzag : Index → Bytes
unfolding zigzag varint
encode_zigzag value = varint 10 (zigzag value)

unfoldable pub encode_each : List Index → Bytes
unfolding encode_zigzag
encode_each [] = []
encode_each (i ∷ is) = encode_zigzag i ++ encode_each is

unfoldable pub encode_indices : List Index → Bytes
unfolding encode_zigzag encode_each
encode_indices indices = encode_zigzag (nonneg (length indices)) ++ encode_each indices

-- `i32::to_be_bytes`
unfoldable pub to_be_bytes : ℕ → Bytes
to_be_bytes n = (n / 2 ^ 24 % 256) ∷ (n / 2 ^ 16 % 256) ∷ (n / 2 ^ 8 % 256) ∷ (n % 256) ∷ []

unfoldable pub wrap_payload_with_confluent_wire_format : ℕ → List Index → Bytes → Bytes
unfolding encode_indices to_be_bytes
wrap_payload_with_confluent_wire_format schema_id message_indices payload =
    0 ∷ (to_be_bytes schema_id ++ (encode_indices message_indices ++ payload))
