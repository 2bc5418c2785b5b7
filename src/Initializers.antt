-- ===== src/Initializers.antt =====
-- The initial bounds: src/pomdpBounds/BlindLBInitializer.cc, FullObsUBInitializer.cc and
-- FastInfUBInitializer.cc, and src/bounds/RelaxUBInitializer.cc.
pub mod Blind
pub mod FullObs
pub mod FastInf
pub mod Corner
pub mod Relax
pub mod SecondBest
pub mod Examples
use zmdp.Prelude.{ℕ, zero, suc, Bool, true, false, List, [], ◌∷◌, if◌then◌else◌}
use zmdp.Double.{Double}

module _ ⦃d : Double⦄ where
  open d use {Num, nought}

  -- The last loop of the initializers for POMDPs: terminal states get the value 0.
  unfoldable pub clear_terminal : List Bool → List Num → List Num
  clear_terminal (t ∷ ts) (x ∷ xs) = (if t then nought else x) ∷ clear_terminal ts xs
  clear_terminal _ xs = xs
