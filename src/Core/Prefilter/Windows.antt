-- ===== src/Core/Prefilter/Windows.antt =====
-- The checks of data slices, `AccountsDataSlice` of crates/core/src/lib.rs, on u64 offsets.
use shipstern.Base.{
  ℕ, ◌+◌, ◌%◌, ◌^◌, ◌≤◌, ◌<◌, ◌≡◌, ◌↔◌, Option, none, some, List, [], ◌∷◌, ltb, ◌==◌, refl, arith,
  if◌then◌else◌, All, is_some,
}
use shipstern.Base.Results.{ok, err, ◌>>◌, both_ok}
use shipstern.Core.Prefilter.{AccountsDataSlice}
use shipstern.Core.Prefilter.Validate.{
  Checked, zero_length_data_slice, data_slice_overflow, data_slice_out_of_order, data_slice_overlap,
}

-- `u64::checked_add`
unfoldable pub checked_add : ℕ → ℕ → Option ℕ
checked_add a b = if ltb (a + b) (2 ^ 64) then some (a + b) else none

unfoldable pub validate_slice : AccountsDataSlice → Checked
unfolding checked_add
validate_slice s =
    if s.length == 0
    then err (zero_length_data_slice s.offset)
    else if is_some (checked_add s.offset s.length)
    then ok tt
    else err (data_slice_overflow s.offset s.length)

unfoldable pub check_after : Option AccountsDataSlice → AccountsDataSlice → Checked
check_after none s = ok tt
check_after (some p) s =
    let end' = (p.offset + p.length) % 2 ^ 64 in
    if ltb s.offset p.offset
    then err (data_slice_out_of_order s.offset p.offset)
    else if ltb s.offset end'
    then err (data_slice_overlap s.offset end')
    else ok tt

unfoldable pub validate_from : Option AccountsDataSlice → List AccountsDataSlice → Checked
unfolding validate_slice check_after
validate_from previous [] = ok tt
validate_from previous (s ∷ rest) = do
  validate_slice s
  check_after previous s
  validate_from (some s) rest

unfoldable pub validate_slices : List AccountsDataSlice → Checked
unfolding validate_from
validate_slices = validate_from none

-- A window of at least one byte that ends within the u64 offsets.
abbrev pub IsWindow : AccountsDataSlice → Type 0
IsWindow s = (0 < s.length) × (s.offset + s.length < 2 ^ 64)

abbrev pub StartsAfter : AccountsDataSlice → AccountsDataSlice → Type 0
StartsAfter p s = p.offset + p.length ≤ s.offset

-- Every window ends before each later one starts.
abbrev pub AreApart : List AccountsDataSlice → Type 0
AreApart [] = Unit
AreApart (s ∷ rest) = All (StartsAfter s) rest × AreApart rest

abbrev Follows : Option AccountsDataSlice → AccountsDataSlice → Type 0
Follows none s = Unit
Follows (some p) s = StartsAfter p s

abbrev IsFine : Option AccountsDataSlice → Type 0
IsFine none = Unit
IsFine (some p) = IsWindow p

validate_slice_iff : (s : AccountsDataSlice) → (validate_slice s ≡ ok tt) ↔ IsWindow s
unfolding validate_slice checked_add
validate_slice_iff s = (λ h. ground arith, λ h. ground arith)

check_after_iff :
    (p : Option AccountsDataSlice) (s : AccountsDataSlice)
    → IsFine p
    → (check_after p s ≡ ok tt) ↔ Follows p s
unfolding check_after
check_after_iff none s f = (λ h. tt, λ h. refl)
check_after_iff (some p) s f = (λ h. ground arith, λ h. ground arith)

All-StartsAfter :
    (p s : AccountsDataSlice) (rest : List AccountsDataSlice)
    → StartsAfter p s
    → All (StartsAfter s) rest
    → All (StartsAfter p) rest
All-StartsAfter p s [] h k = tt
All-StartsAfter p s (t ∷ rest) h k = (omega arith, All-StartsAfter p s rest h k.1)

abbrev AfterAll : Option AccountsDataSlice → List AccountsDataSlice → Type 0
AfterAll none rest = Unit
AfterAll (some p) rest = All (StartsAfter p) rest

AfterAll-cons :
    (p : Option AccountsDataSlice) (s : AccountsDataSlice) (rest : List AccountsDataSlice)
    → Follows p s
    → All (StartsAfter s) rest
    → AfterAll p (s ∷ rest)
AfterAll-cons none s rest h k = tt
AfterAll-cons (some p) s rest h k = (h, All-StartsAfter p s rest h k)

AfterAll-head :
    (p : Option AccountsDataSlice) (s : AccountsDataSlice) (rest : List AccountsDataSlice)
    → AfterAll p (s ∷ rest)
    → Follows p s
AfterAll-head none s rest h = tt
AfterAll-head (some p) s rest h = h.0

validate_from_iff :
    (p : Option AccountsDataSlice) (slices : List AccountsDataSlice)
    → IsFine p
    → (validate_from p slices ≡ ok tt) ↔ (All IsWindow slices × AfterAll p slices × AreApart slices)
unfolding validate_from
validate_from_iff none [] f = (λ h. (tt, tt, tt), λ h. refl)
validate_from_iff (some p) [] f = (λ h. (tt, tt, tt), λ h. refl)
validate_from_iff p (s ∷ rest) f = (
  λ h.
      let (window, later) = (both_ok (validate_slice s) _).0 h in
      let (follows, last) = (both_ok (check_after p s) _).0 later in
      let is_window = (validate_slice_iff s).0 window in
      let (windows, after, apart) = (validate_from_iff (some s) rest is_window).0 last in
      (
        (is_window, windows),
        AfterAll-cons p s rest ((check_after_iff p s f).0 follows) after,
        (after, apart),
      ),
  λ (windows, after, apart). (both_ok (validate_slice s) _).1 (
    (validate_slice_iff s).1 windows.0,
    (both_ok (check_after p s) _).1 (
      (check_after_iff p s f).1 (AfterAll-head p s rest after),
      (validate_from_iff (some s) rest windows.0).1 (windows.1, apart.0, apart.1),
    ),
  ),
)

-- The check of a list of slices succeeds exactly when each is a window of at least one byte within the
-- u64 offsets, and each ends before every later one starts.
pub validate_slices_iff :
    (slices : List AccountsDataSlice)
    → (validate_slices slices ≡ ok tt) ↔ (All IsWindow slices × AreApart slices)
unfolding validate_slices
validate_slices_iff slices = (
  λ h. let (windows, after, apart) = (validate_from_iff none slices tt).0 h in (windows, apart),
  λ (windows, apart). (validate_from_iff none slices tt).1 (windows, tt, apart),
)
