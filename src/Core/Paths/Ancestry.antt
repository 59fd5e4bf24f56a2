-- ===== src/Core/Paths/Ancestry.antt =====
-- Parents and ancestors of the paths of crates/core/src/instruction.rs.
use shipstern.Base.{ℕ, ◌≡◌, refl, true, List, [], ◌∷◌, ◌++◌, arith, length-append}
use shipstern.Core.Paths.{push_clone, same_prefix, is_parent_of, is_ancestor_of}

same_prefix-append : (path more : List ℕ) → same_prefix path (path ++ more) ≡ true
unfolding same_prefix
same_prefix-append [] more = refl
same_prefix-append (a ∷ path) more = ground (arith, same_prefix-append path more)

same_prefix-append_more : (path more rest : List ℕ) → same_prefix path (path ++ more ++ rest) ≡ true
unfolding same_prefix
same_prefix-append_more [] more rest = refl
same_prefix-append_more (a ∷ path) more rest =
    ground (arith, same_prefix-append_more path more rest)

-- A path is the parent of the paths that it is pushed to, and an ancestor of every longer path
-- that begins with it.
pub ancestors :
    (path : List ℕ) (idx : ℕ) (more : List ℕ)
    → (is_parent_of path (push_clone path idx) ≡ true)
      × (is_ancestor_of path (push_clone path idx ++ more) ≡ true)
unfolding push_clone is_parent_of is_ancestor_of
ancestors path idx more = (
  (let n = length-append path (idx ∷ []) in ground (arith, same_prefix-append path (idx ∷ []))),
  (let n = length-append path (idx ∷ []) in
      let k = length-append (path ++ idx ∷ []) more in
      ground (arith, same_prefix-append_more path (idx ∷ []) more)),
)

same_prefix_trans :
    (a b c : List ℕ) → same_prefix a b ≡ true → same_prefix b c ≡ true → same_prefix a c ≡ true
unfolding same_prefix
same_prefix_trans [] b c h k = refl
same_prefix_trans (x ∷ a) [] c h k = absurd (ground arith)
same_prefix_trans (x ∷ a) (y ∷ b) [] h k = absurd (ground arith)
same_prefix_trans (x ∷ a) (y ∷ b) (z ∷ c) h k = ground (arith, same_prefix_trans a b c)

-- An ancestor of an ancestor is an ancestor.
pub is_ancestor_of_trans :
    (a b c : List ℕ)
    → is_ancestor_of a b ≡ true
    → is_ancestor_of b c ≡ true
    → is_ancestor_of a c ≡ true
unfolding is_ancestor_of
is_ancestor_of_trans a b c h k = ground (arith, same_prefix_trans a b c)
