-- ===== src/Preconf/Framer/Runs.antt =====
-- Runs of one stream through crates/preconf-source/src/framer.rs: updates, and the resubscriptions
-- between them.
use shipstern.Base.{
  ℕ, suc, ◌+◌, ◌^◌, ◌<◌, ◌≡◌, refl, subst, ◌∙◌, Bool, true, Option, none, some, List, [], ◌∷◌, ◌++◌,
  inl, inr, arith, ◌==◌, if◌then◌else◌, length, inc64_lem, Bool-cases,
}
use shipstern.Base.Maps.{Map, nat_ord, get, contains, Above, IsSorted}
use shipstern.Preconf.Convert.{Bytes, VersionedTransaction}
use shipstern.Preconf.Framer.{
  Name, FeedUpdate, Frame, Framer, SubscribeUpdate, Applied, new_framer, apply_update, close_frames,
  reconnected,
}
use shipstern.Preconf.Framer.Frames.{apply_update-IsSorted}
use shipstern.Preconf.Framer.Indexes.{next_of, Counted, apply_update-Counted}

pub data Input : Type 0 where
  update : FeedUpdate → Input
  resubscribed : Input

close_frames-Above : (k : ℕ) (m : Map ℕ Frame) → Above k m → Above k (close_frames m)
unfolding close_frames
close_frames-Above k [] a = tt
close_frames-Above k ((j, frame) ∷ m) a = (a.0, close_frames-Above k m a.1)

close_frames-IsSorted : (m : Map ℕ Frame) → IsSorted m → IsSorted (close_frames m)
unfolding close_frames
close_frames-IsSorted [] s = tt
close_frames-IsSorted ((j, frame) ∷ m) s = (close_frames-Above j m s.0, close_frames-IsSorted m s.1)

next-close_frames : (s : ℕ) (m : Map ℕ Frame) → next_of (close_frames m) s ≡ next_of m s
unfolding close_frames get
next-close_frames s [] = refl
next-close_frames s ((j, frame) ∷ m) = ground (arith, next-close_frames s m)

-- The numbers count up from `n`, one by one.
abbrev pub Consecutive : ℕ → List ℕ → Type 0
Consecutive n [] = Unit
Consecutive n (x ∷ xs) = (x ≡ n) × Consecutive (n + 1) xs

-- The index that an update gives to a transaction of the slot.
unfoldable pub index_for : ℕ → Option SubscribeUpdate → List ℕ
index_for s none = []
index_for s (some out) = if out.slot == s then out.index ∷ [] else []

module _ (decode : Bytes → Option VersionedTransaction)
    (is_simple_vote : List Bytes → Bool → List Bytes → Bool) where
  unfoldable pub step : Input → Framer → Applied
  unfolding reconnected
  step (update u) f = apply_update decode is_simple_vote u f
  step resubscribed f = (none, reconnected f)

  unfoldable pub indexes_of : ℕ → List Input → Framer → List ℕ
  unfolding step index_for
  indexes_of s [] f = []
  indexes_of s (i ∷ is) f = index_for s (step i f).0 ++ indexes_of s is (step i f).1

  -- The slot has an entry after each step.
  abbrev pub Stays : ℕ → List Input → Framer → Type 0
  Stays s [] f = Unit
  Stays s (i ∷ is) f = (contains s (step i f).1.frames ≡ true) × Stays s is (step i f).1

  step-IsSorted : (i : Input) (f : Framer) → IsSorted f.frames → IsSorted (step i f).1.frames
  unfolding step
  step-IsSorted (update u) f o = apply_update-IsSorted decode is_simple_vote u f o
  step-IsSorted resubscribed f o = close_frames-IsSorted f.frames o

  step-Counted :
      (s : ℕ) (i : Input) (f : Framer)
      → IsSorted f.frames
      → contains s (step i f).1.frames ≡ true
      → Counted s f.frames (step i f).0 (step i f).1.frames
  unfolding step
  step-Counted s (update u) f o h = apply_update-Counted decode is_simple_vote s u f o h
  step-Counted s resubscribed f o h = record {
    given = λ out i. cc;
    others = λ out i. cc;
    nothing = λ _. next-close_frames s f.frames;
  }

  -- One step, with the rest of the run counting on from it.
  Counted-Consecutive :
      (s n : ℕ) (o : Option SubscribeUpdate) (m m' : Map ℕ Frame) (rest : List ℕ)
      → Counted s m o m'
      → next_of m s + suc n < 2 ^ 64
      → (next_of m' s + n < 2 ^ 64 → Consecutive (next_of m' s) rest)
      → Consecutive (next_of m s) (index_for s o ++ rest)
  unfolding index_for
  Counted-Consecutive s n none m m' rest c h k =
      subst (λ x. Consecutive x rest) (c.nothing refl) (k (rw (c.nothing refl) (omega arith)))
  Counted-Consecutive s n (some out) m m' rest c h k = elim (Bool-cases (out.slot == s)) [
    | inl here ↦
        let (e, e') = c.given out refl (ground arith) in
        let up : next_of m' s ≡ next_of m s + 1 = e' ∙ inc64_lem (next_of m s) (omega arith) in
        rw here (e, subst (λ x. Consecutive x rest) up (k (omega arith)))
    | inr other ↦
        let e = c.others out refl (ground arith) in
        rw other (subst (λ x. Consecutive x rest) e (k (omega arith)))
  ]

  run-Consecutive :
      (s : ℕ) (is : List Input) (f : Framer)
      → IsSorted f.frames
      → Stays s is f
      → next_of f.frames s + length is < 2 ^ 64
      → Consecutive (next_of f.frames s) (indexes_of s is f)
  unfolding indexes_of
  run-Consecutive s [] f o st h = tt
  run-Consecutive s (i ∷ is) f o st h =
      Counted-Consecutive s (length is) (step i f).0 f.frames (step i f).1.frames _
        (step-Counted s i f o st.0) h (run-Consecutive s is (step i f).1 (step-IsSorted i f o) st.1)

  -- Over any updates and resubscriptions of a new stream, as long as the slot has an entry in the
  -- index map after each of them (and there are fewer than 2 ^ 64), the transactions of the slot go
  -- out under the indexes 0, 1, 2 and so on, with none left out and none used twice.
  pub indexes_of-Consecutive :
      (vote_rules : Name → Option Bool) (s : ℕ) (is : List Input)
      → Stays s is (new_framer vote_rules)
      → length is < 2 ^ 64
      → Consecutive 0 (indexes_of s is (new_framer vote_rules))
  unfolding new_framer get
  indexes_of-Consecutive vote_rules s is st h =
      run-Consecutive s is (new_framer vote_rules) tt st (omega arith)
