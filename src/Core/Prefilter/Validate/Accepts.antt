-- ===== src/Core/Prefilter/Validate/Accepts.antt =====
-- Which lists of account filters the checks of crates/core/src/lib.rs let through.
use shipstern.Base.{
  ℕ, ◌+◌, ◌≤◌, ◌<◌, ◌≡◌, ◌↔◌, refl, Bool, true, false, ◌||◌, Option, some, List, [], ◌∷◌, arith,
  ltb, length, if◌then◌else◌, All, ap, sym, ◌∙◌, subst, under_if,
}
use shipstern.Base.Results.{Result, ok, err, ◌>>=◌, both_ok, ok_inj, ok_not_err}
use shipstern.Core.Prefilter.{
  Bytes, MemcmpData, bytes, base58, base64, AccountFilter, memcmp, data_size, token_account_state,
  lamports,
}
use shipstern.Core.Prefilter.Validate.{
  Checked, Measure, PrefilterError, check_memcmp_len, max_data_base58_size, max_data_base64_size,
  max_data_size, max_filters, decoded, decode, check_decoded, validate, is_data_size, validate_next,
  validate_each, validate_all,
}

abbrev pub data_sizes : List AccountFilter → ℕ
data_sizes [] = 0
data_sizes (f ∷ fs) = (if is_data_size f then 1 else 0) + data_sizes fs

module _ (decode_base58 decode_base64 : Bytes → Option Bytes) where
  -- The bytes of a comparison that stays within the limit on its text.
  abbrev pub Decodes : MemcmpData → Bytes → Type 0
  Decodes (bytes b) out = b ≡ out
  Decodes (base58 text) out = (length text ≤ max_data_base58_size) × (decode_base58 text ≡ some out)
  Decodes (base64 text) out = (length text ≤ max_data_base64_size) × (decode_base64 text ≡ some out)

  abbrev pub IsAccepted : AccountFilter → Type 0
  IsAccepted (memcmp offset datum) =
      (out : Bytes) × Decodes datum out × (0 < length out) × (length out ≤ max_data_size)
  IsAccepted (token_account_state b) = b ≡ true
  IsAccepted (data_size n) = Unit
  IsAccepted (lamports c) = Unit

  check_memcmp_len_iff :
      (len max offset : ℕ) (unit : Measure)
      → (check_memcmp_len len max offset unit ≡ ok tt) ↔ (len ≤ max)
  unfolding check_memcmp_len
  check_memcmp_len_iff len max offset unit = (λ h. ground arith, λ h. ground arith)

  text_ok :
      (len max offset : ℕ) (unit : Measure) (o : Option Bytes) (out : Bytes)
      → ((check_memcmp_len len max offset unit >>= λ u. decoded unit offset o) ≡ ok out)
        ↔ ((len ≤ max) × (o ≡ some out))
  unfolding check_memcmp_len decoded
  text_ok len max offset unit o out = (λ h. ground arith, λ h. ground arith)

  decode_iff :
      (offset : ℕ) (datum : MemcmpData) (out : Bytes)
      → (decode decode_base58 decode_base64 offset datum ≡ ok out) ↔ Decodes datum out
  unfolding decode
  decode_iff offset (bytes b) out = (λ h. cc, λ h. ap ok h)
  decode_iff offset (base58 text) out = text_ok _ _ _ _ (decode_base58 text) out
  decode_iff offset (base64 text) out = text_ok _ _ _ _ (decode_base64 text) out

  none_below : 0 < 0 → ⊥
  none_below h = omega arith

  check_decoded_iff :
      (offset : ℕ) (b : Bytes)
      → (check_decoded offset b ≡ ok tt) ↔ ((0 < length b) × (length b ≤ max_data_size))
  unfolding check_decoded
  check_decoded_iff offset [] = (λ h. cc, λ h. absurd (none_below h.0))
  check_decoded_iff offset (b ∷ bs) = (
    λ h. (omega arith, (check_memcmp_len_iff _ _ _ _).0 h),
    λ h. (check_memcmp_len_iff _ _ _ _).1 h.1,
  )

  memcmp_iff :
      (offset : ℕ) (datum : MemcmpData) (r : Result PrefilterError Bytes)
      → decode decode_base58 decode_base64 offset datum ≡ r
      → (validate decode_base58 decode_base64 (memcmp offset datum) ≡ ok tt)
        ↔ IsAccepted (memcmp offset datum)
  unfolding validate
  memcmp_iff offset datum (ok out) e = rw e (
    λ h.
        let fits = (check_decoded_iff offset out).0 h in
        (out, (decode_iff offset datum out).0 e, fits.0, fits.1),
    λ (b, d, some_byte, fits).
        let same_bytes = ok_inj (sym e ∙ (decode_iff offset datum b).1 d) in
        (check_decoded_iff offset out).1 (
          subst (λ x. (0 < length x) × (length x ≤ max_data_size)) (sym same_bytes)
            (some_byte, fits)),
  )
  memcmp_iff offset datum (err x) e = rw e (
    λ h. cc,
    λ (b, d, some_byte, fits). absurd (ok_not_err (sym ((decode_iff offset datum b).1 d) ∙ e)),
  )

  pub validate_iff :
      (f : AccountFilter) → (validate decode_base58 decode_base64 f ≡ ok tt) ↔ IsAccepted f
  unfolding validate
  validate_iff (memcmp offset datum) = memcmp_iff offset datum _ refl
  validate_iff (token_account_state true) = (λ h. refl, λ h. refl)
  validate_iff (token_account_state false) = (λ h. cc, λ h. cc)
  validate_iff (data_size n) = (λ h. tt, λ h. refl)
  validate_iff (lamports c) = (λ h. tt, λ h. refl)

  abbrev seen : Bool → ℕ
  seen b = if b then 1 else 0

  validate_next_iff :
      (saw is_size : Bool) (n : ℕ) (rest : Checked) (P : Type 0)
      → ((rest ≡ ok tt) ↔ (P × (seen (saw || is_size) + n ≤ 1)))
      → (validate_next saw is_size rest ≡ ok tt) ↔ (P × (seen saw + (seen is_size + n) ≤ 1))
  unfolding validate_next
  validate_next_iff true true n rest P h = (λ e. cc, λ e. absurd (too_many e.1))
    where
      too_many : 1 + (1 + n) ≤ 1 → ⊥
      too_many k = omega arith
  validate_next_iff true false n rest P h =
      (λ e. let (p, k) = h.0 e in (p, omega arith), λ e. h.1 (e.0, omega (arith, e.1)))
  validate_next_iff false b n rest P h =
      (λ e. let (p, k) = h.0 e in (p, omega arith), λ e. h.1 (e.0, omega (arith, e.1)))

  validate_each_iff :
      (saw : Bool) (fs : List AccountFilter)
      → (validate_each decode_base58 decode_base64 saw fs ≡ ok tt)
        ↔ (All IsAccepted fs × (seen saw + data_sizes fs ≤ 1))
  unfolding validate_each
  validate_each_iff true [] = (λ h. (tt, omega arith), λ h. refl)
  validate_each_iff false [] = (λ h. (tt, omega arith), λ h. refl)
  validate_each_iff saw (f ∷ fs) =
      let step = both_ok (validate decode_base58 decode_base64 f) _ in
      let next =
        validate_next_iff saw (is_data_size f) (data_sizes fs) _ _
          (validate_each_iff (saw || is_data_size f) fs) in
      (
        λ h.
            let (first, later) = step.0 h in
            let (accepted, sizes) = next.0 later in (((validate_iff f).0 first, accepted), sizes),
        λ (accepted, sizes). step.1 ((validate_iff f).1 accepted.0, next.1 (accepted.1, sizes)),
      )

  -- The check of a list of account filters succeeds exactly when it has at most four, at most one of
  -- them a data size, and each is one that the server takes: a comparison has between 1 and 128 bytes
  -- after decoding and a text within its limit, and a token account state is `true`.
  pub validate_all_iff :
      (fs : List AccountFilter)
      → (validate_all decode_base58 decode_base64 fs ≡ ok tt)
        ↔ ((length fs ≤ max_filters) × All IsAccepted fs × (data_sizes fs ≤ 1))
  unfolding validate_all
  validate_all_iff fs =
      under_if
        (λ r. (r ≡ ok tt) ↔ ((length fs ≤ max_filters) × All IsAccepted fs × (data_sizes fs ≤ 1)))
        (ltb max_filters (length fs)) _ _ (λ over. (λ h. cc, λ h. absurd (not_both over h.0)))
        (λ within.
          let each = validate_each_iff false fs in
          (
            λ h. let (a, n) = each.0 h in (fits within, a, omega arith),
            λ (k, a, n). each.1 (a, omega arith),
          ))
    where
      not_both : ltb max_filters (length fs) ≡ true → length fs ≤ max_filters → ⊥
      not_both h k = ground arith

      fits : ltb max_filters (length fs) ≡ false → length fs ≤ max_filters
      fits h = ground arith
