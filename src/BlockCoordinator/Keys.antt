-- ===== src/BlockCoordinator/Keys.antt =====
-- The derived `Ord` of the two record sort keys of crates/block-coordinator/src/types.rs:
-- fields in order, sequences lexicographically with a prefix first.
use shipstern.Base.{
  ℕ, ◌≡◌, refl, Bool, true, false, List, [], ◌∷◌, ◌++◌, ◌<◌, arith, ltb, if◌then◌else◌,
}
use shipstern.Base.Maps.{Ord}
use shipstern.BlockCoordinator.Types.{InstructionRecordSortKey, AccountRecordSortKey}

unfoldable pub lex : List ℕ → List ℕ → Bool
lex [] [] = false
lex [] (b ∷ bs) = true
lex (a ∷ as') [] = false
lex (a ∷ as') (b ∷ bs) = if ltb a b then true else if ltb b a then false else lex as' bs

pub lex_irrefl : (a : List ℕ) → lex a a ≡ false
unfolding lex
lex_irrefl [] = refl
lex_irrefl (a ∷ as') = ground (arith, lex_irrefl as')

pub lex_transitive : (a b c : List ℕ) → lex a b ≡ true → lex b c ≡ true → lex a c ≡ true
unfolding lex
lex_transitive [] [] c h k = cc
lex_transitive [] (b ∷ bs) [] h k = cc
lex_transitive [] (b ∷ bs) (c ∷ cs) h k = refl
lex_transitive (a ∷ as') [] c h k = cc
lex_transitive (a ∷ as') (b ∷ bs) [] h k = cc
lex_transitive (a ∷ as') (b ∷ bs) (c ∷ cs) h k = ground (arith, lex_transitive as' bs cs)

pub lex_connex : (a b : List ℕ) → lex a b ≡ false → lex b a ≡ false → a ≡ b
unfolding lex
lex_connex [] [] h k = refl
lex_connex [] (b ∷ bs) h k = cc
lex_connex (a ∷ as') [] h k = cc
lex_connex (a ∷ as') (b ∷ bs) h k = ground (arith, lex_connex as' bs)

-- An instruction comes before the instructions that it calls.
pub lex_prefix : (path : List ℕ) (i : ℕ) (rest : List ℕ) → lex path (path ++ i ∷ rest) ≡ true
unfolding lex
lex_prefix [] i rest = refl
lex_prefix (p ∷ path) i rest = ground (arith, lex_prefix path i rest)

-- All that one instruction calls comes before all that a later sibling calls.
pub lex_sibling :
    (path : List ℕ) (i j : ℕ) (under over : List ℕ)
    → i < j
    → lex (path ++ i ∷ under) (path ++ j ∷ over) ≡ true
unfolding lex
lex_sibling [] i j under over h = ground arith
lex_sibling (p ∷ path) i j under over h = ground (arith, lex_sibling path i j under over h)

unfoldable pub instruction_key_lt : InstructionRecordSortKey → InstructionRecordSortKey → Bool
instruction_key_lt a b =
    if ltb a.tx_index b.tx_index
    then true
    else if ltb b.tx_index a.tx_index
    then false
    else lex a.ix_path b.ix_path

unfoldable pub account_key_lt : AccountRecordSortKey → AccountRecordSortKey → Bool
account_key_lt a b =
    if ltb a.write_version b.write_version
    then true
    else if ltb b.write_version a.write_version
    then false
    else lex a.pubkey b.pubkey

pub instruction_key_irrefl : (a : InstructionRecordSortKey) → instruction_key_lt a a ≡ false
unfolding instruction_key_lt
instruction_key_irrefl a = ground (arith, lex_irrefl a.ix_path)

pub instruction_key_transitive :
    (a b c : InstructionRecordSortKey)
    → instruction_key_lt a b ≡ true
    → instruction_key_lt b c ≡ true
    → instruction_key_lt a c ≡ true
unfolding instruction_key_lt
instruction_key_transitive a b c h k = ground (arith, lex_transitive a.ix_path b.ix_path c.ix_path)

pub instruction_key_connex :
    (a b : InstructionRecordSortKey)
    → instruction_key_lt a b ≡ false
    → instruction_key_lt b a ≡ false
    → a ≡ b
unfolding instruction_key_lt
instruction_key_connex a b h k = ground (arith, lex_connex a.ix_path b.ix_path)

pub account_key_irrefl : (a : AccountRecordSortKey) → account_key_lt a a ≡ false
unfolding account_key_lt
account_key_irrefl a = ground (arith, lex_irrefl a.pubkey)

pub account_key_transitive :
    (a b c : AccountRecordSortKey)
    → account_key_lt a b ≡ true
    → account_key_lt b c ≡ true
    → account_key_lt a c ≡ true
unfolding account_key_lt
account_key_transitive a b c h k = ground (arith, lex_transitive a.pubkey b.pubkey c.pubkey)

pub account_key_connex :
    (a b : AccountRecordSortKey) → account_key_lt a b ≡ false → account_key_lt b a ≡ false → a ≡ b
unfolding account_key_lt
account_key_connex a b h k = ground (arith, lex_connex a.pubkey b.pubkey)

instance abbrev pub instruction_key_ord : Ord InstructionRecordSortKey
instruction_key_ord = record {
  lt = instruction_key_lt;
  irrefl = instruction_key_irrefl;
  transitive = instruction_key_transitive;
  connex = instruction_key_connex;
}

instance abbrev pub account_key_ord : Ord AccountRecordSortKey
account_key_ord = record {
  lt = account_key_lt;
  irrefl = account_key_irrefl;
  transitive = account_key_transitive;
  connex = account_key_connex;
}

-- The order of byte strings and of 32-byte keys.
instance abbrev pub lex_ord : Ord (List ℕ)
lex_ord = record { lt = lex; irrefl = lex_irrefl; transitive = lex_transitive; connex = lex_connex }
