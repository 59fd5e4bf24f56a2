-- ===== src/Preconf/Framer/Indexes.antt =====
-- The indexes that crates/preconf-source/src/framer.rs gives to the transactions of a slot.
use shipstern.Base.{
  ℕ, ◌≡◌, ◌≢◌, refl, sym, ap, subst, ◌∙◌, Bool, true, Option, none, some, List, [], ◌∷◌, ◌⊎◌, inl,
  inr, arith, ltb, leb, ◌==◌, length, unwrap_or, inc64, Bool-cases, Option-cases, is_some,
}
use shipstern.Base.Maps.{
  Map, nat_ord, get, insert, modify, contains, IsSorted, insert-IsSorted, get-insert_self,
  get-insert_ne,
}
use shipstern.Base.Maps.Kept.{get-tail, get-retain_kept}
use shipstern.Preconf.Convert.{Bytes, VersionedTransaction}
use shipstern.Preconf.Framer.{
  Name, HarmonicPayload, BamPayload, slot_start, slot_end, FeedUpdate, harmonic, bam, Frame,
  default_frame, Framer, SubscribeUpdate, Applied, with_frame, frame_of, cap_frames, advance,
  unknown_payload, clip_transactions, take_transaction, open_frame, start_frame, end_frame,
  start_slot, take_harmonic, take_bam, take_update, apply_update, max_frames,
}
use shipstern.Preconf.Framer.Frames.{
  Took, take_transaction-Took, Took-IsSorted, take_update-IsSorted,
}

get-cap_frames :
    (s : ℕ) (m : Map ℕ Frame)
    → IsSorted m
    → contains s (cap_frames m) ≡ true
    → get s (cap_frames m) ≡ get s m
unfolding cap_frames get
get-cap_frames s [] o h = refl
get-cap_frames s ((j, w) ∷ m) o h = elim (Bool-cases (ltb max_frames (length ((j, w) ∷ m)))) [
  | inl long ↦ rw long (dropped long (λ c. get-cap_frames s m o.1 c))
  | inr short ↦ rw short
]
  where
    dropped :
        ltb max_frames (length ((j, w) ∷ m)) ≡ true
        → (contains s (cap_frames m) ≡ true → get s (cap_frames m) ≡ get s m)
        → get s (cap_frames m) ≡ get s ((j, w) ∷ m)
    dropped long ih =
        let c : contains s (cap_frames m) ≡ true = ground arith in
        ih c ∙ sym (get-tail s j w m o.0 (rw (sym (ih c)) c))

same_slot : (a b : ℕ) → (a ≡ b) ⊎ (a ≢ b)
same_slot a b = elim (Bool-cases (a == b)) [
  | inl h ↦ inl (ground arith)
  | inr h ↦ inr (ground arith)
]

-- The index that the slot's next transaction gets.
abbrev pub next_of : Map ℕ Frame → ℕ → ℕ
next_of m s = (unwrap_or (get s m) default_frame).next

next_same : (s : ℕ) (m m' : Map ℕ Frame) → get s m' ≡ get s m → next_of m' s ≡ next_of m s
next_same s m m' e = ap (λ o. (unwrap_or o default_frame).next) e

next-insert_self : (s : ℕ) (v : Frame) (m : Map ℕ Frame) → next_of (insert s v m) s ≡ v.next
next-insert_self s v m = ap (λ o. (unwrap_or o default_frame).next) (get-insert_self s v m)

next-modify :
    (s slot : ℕ) (g : Frame → Frame) (m : Map ℕ Frame)
    → ((frame : Frame) → (g frame).next ≡ frame.next)
    → next_of (modify slot default_frame g m) s ≡ next_of m s
next-modify s slot g m same = elim (same_slot slot s) [
  | inl e ↦
      subst (λ k. next_of (modify slot default_frame g m) k ≡ next_of m k) e
        (next-insert_self slot _ m ∙ same (unwrap_or (get slot m) default_frame))
  | inr n ↦ next_same s m _ (get-insert_ne slot s _ m n)
]

-- What a step does to the count of a slot: a transaction of the slot goes out under the next
-- index, and nothing else moves the count.
pub record Counted (s : ℕ) (m : Map ℕ Frame) (o : Option SubscribeUpdate) (m' : Map ℕ Frame)
    : Type 0 where
  pub given :
      (out : SubscribeUpdate)
      → o ≡ some out
      → out.slot ≡ s
      → (out.index ≡ next_of m s) × (next_of m' s ≡ inc64 (next_of m s))
  pub others : (out : SubscribeUpdate) → o ≡ some out → out.slot ≢ s → next_of m' s ≡ next_of m s
  pub nothing : o ≡ none → next_of m' s ≡ next_of m s

Counted-none : (s : ℕ) (m m' : Map ℕ Frame) → next_of m' s ≡ next_of m s → Counted s m none m'
Counted-none s m m' e = record { given = λ out i. cc; others = λ out i. cc; nothing = λ _. e }

-- The maps before and after may be exchanged for such as agree on the slot.
Counted-same :
    (s : ℕ) (m n m' n' : Map ℕ Frame) (o : Option SubscribeUpdate)
    → next_of n s ≡ next_of m s
    → next_of n' s ≡ next_of m' s
    → Counted s m o m'
    → Counted s n o n'
Counted-same s m n m' n' o e e' c = record {
  given = λ out i k. rw (e, e') (c.given out i k);
  others = λ out i k. rw (e, e') (c.others out i k);
  nothing = λ i. rw (e, e') (c.nothing i);
}

Took-Counted :
    (s slot : ℕ) (f : Framer) (a : Applied) → Took slot f a → Counted s f.frames a.0 a.1.frames
unfolding frame_of
Took-Counted s slot f (none, f') t = Counted-none s f.frames f'.frames (ap (λ m. next_of m s) t)
Took-Counted s slot f (some out, f') t = record {
  given = λ o i k.
      let e : o ≡ out = cc in
      let here : slot ≡ s = sym (t.0) ∙ ap (λ x. x.slot) (sym e) ∙ k in
      (
        ap (λ x. x.index) e ∙ t.1 ∙ ap (next_of f.frames) here,
        subst (λ k. next_of f'.frames k ≡ inc64 (next_of f.frames k)) here
            (ap (λ m. next_of m slot) t.2 ∙ next-insert_self slot _ f.frames),
      );
  others = λ o i k.
      let e : o ≡ out = cc in
      ap (λ m. next_of m s) t.2
      ∙ next_same s f.frames _
          (get-insert_ne slot s _ f.frames (λ here. k (ap (λ x. x.slot) e ∙ t.0 ∙ here)));
  nothing = λ i. cc;
}

next-advance :
    (s slot : ℕ) (f : Framer)
    → IsSorted f.frames
    → contains s (advance slot f).frames ≡ true
    → next_of (advance slot f).frames s ≡ next_of f.frames s
unfolding advance
next-advance s slot f o = elim (Option-cases f.frontier) [
  | inl e ↦ rw (e, advance) (λ h. next_same s f.frames _ (get-retain_kept _ s f.frames o h))
  | inr (last, e) ↦ elim (Bool-cases (leb slot last)) [
    | inl b ↦ rw (e, b) (λ h. refl)
    | inr b ↦ rw (e, b) (λ h. next_same s f.frames _ (get-retain_kept _ s f.frames o h))
  ]
]

module _ (decode : Bytes → Option VersionedTransaction)
    (is_simple_vote : List Bytes → Bool → List Bytes → Bool) where
  take_harmonic-Counted :
      (s : ℕ) (filters : List Name) (p : Option HarmonicPayload) (f : Framer)
      → IsSorted f.frames
      → contains s (take_harmonic decode is_simple_vote filters p f).1.frames ≡ true
      → Counted s f.frames
          (take_harmonic decode is_simple_vote filters p f).0
          (take_harmonic decode is_simple_vote filters p f).1.frames
  unfolding take_harmonic unknown_payload clip_transactions start_slot with_frame
  take_harmonic-Counted s filters none f o h = Counted-none s f.frames f.frames refl
  take_harmonic-Counted s filters (some (HarmonicPayload.transaction tx)) f o h =
      Took-Counted s tx.slot f _ (take_transaction-Took decode is_simple_vote filters tx f)
  take_harmonic-Counted s filters (some (slot_start slot)) f o h =
      Counted-none s f.frames _ (next-modify s slot start_frame f.frames (λ frame. refl))
  take_harmonic-Counted s filters (some (slot_end slot)) f o h = Counted-none s f.frames _ (
      next-advance s slot (with_frame slot end_frame f) (insert-IsSorted slot _ f.frames o) h
      ∙ next-modify s slot end_frame f.frames (λ frame. refl))
  take_harmonic-Counted s filters (some (HarmonicPayload.clip n)) f o h =
      Counted-none s f.frames f.frames refl
  take_harmonic-Counted s filters (some HarmonicPayload.ping) f o h =
      Counted-none s f.frames f.frames refl

  take_bam-Counted :
      (s : ℕ) (filters : List Name) (p : Option BamPayload) (f : Framer)
      → IsSorted f.frames
      → contains s (take_bam decode is_simple_vote filters p f).1.frames ≡ true
      → Counted s f.frames
          (take_bam decode is_simple_vote filters p f).0
          (take_bam decode is_simple_vote filters p f).1.frames
  unfolding take_bam unknown_payload clip_transactions with_frame
  take_bam-Counted s filters none f o h = Counted-none s f.frames f.frames refl
  take_bam-Counted s filters (some (BamPayload.transaction tx)) f o h =
      let opened = with_frame tx.slot open_frame f in
      let took = take_transaction-Took decode is_simple_vote filters tx opened in
      Counted-same s opened.frames f.frames _ _ _
        (sym (next-modify s tx.slot open_frame f.frames (λ frame. refl)))
        (next-advance s tx.slot (take_transaction decode is_simple_vote filters tx opened).1
          (Took-IsSorted decode is_simple_vote tx.slot opened _
            (insert-IsSorted tx.slot _ f.frames o) took)
          h)
        (Took-Counted s tx.slot opened _ took)
  take_bam-Counted s filters (some (BamPayload.clip n)) f o h =
      Counted-none s f.frames f.frames refl
  take_bam-Counted s filters (some BamPayload.ping) f o h = Counted-none s f.frames f.frames refl

  take_update-Counted :
      (s : ℕ) (u : FeedUpdate) (f : Framer)
      → IsSorted f.frames
      → contains s (take_update decode is_simple_vote u f).1.frames ≡ true
      → Counted s f.frames
          (take_update decode is_simple_vote u f).0
          (take_update decode is_simple_vote u f).1.frames
  unfolding take_update
  take_update-Counted s (harmonic filters p) f o h = take_harmonic-Counted s filters p f o h
  take_update-Counted s (bam filters p) f o h = take_bam-Counted s filters p f o h

  pub apply_update-Counted :
      (s : ℕ) (u : FeedUpdate) (f : Framer)
      → IsSorted f.frames
      → contains s (apply_update decode is_simple_vote u f).1.frames ≡ true
      → Counted s f.frames
          (apply_update decode is_simple_vote u f).0
          (apply_update decode is_simple_vote u f).1.frames
  unfolding apply_update
  apply_update-Counted s u f o h =
      let taken = (take_update decode is_simple_vote u f).1.frames in
      let e = get-cap_frames s taken (take_update-IsSorted decode is_simple_vote u f o) h in
      Counted-same s f.frames f.frames taken _ _ refl (next_same s taken (cap_frames taken) e)
        (take_update-Counted s u f o (ap is_some (sym e) ∙ h))
