-- ===== src/BlockCoordinator/Coordinator/Wrapper.antt =====
-- The two `while let Some(..) = self.wrapper.pop_..()` loops of
-- crates/block-coordinator/src/coordinator.rs, whose fuel is one more than what the
-- wrapper has queued.
use shipstern.Base.{◌≡◌, List, [], ◌∷◌, Option, none, some}

-- The loop without fuel: the items that it pops, until a pop gives nothing.
pub data Pops {ℓ} {W I : Type ℓ} (pop : W → Option I × W) : W → List I → W → Type ℓ where
  nothing : (w w' : W) → pop w ≡ (none, w') → Pops pop w [] w'
  one :
      (w w' w'' : W) (i : I) (is : List I)
      → pop w ≡ (some i, w')
      → Pops pop w' is w''
      → Pops pop w (i ∷ is) w''
