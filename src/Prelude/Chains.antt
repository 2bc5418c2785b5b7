-- ===== src/Prelude/Chains.antt =====
-- Chains of a relation, as they arise where an element stands for those that it replaces.
use mathlib.Core.List.{List, Memᴰ}

module _ {ℓ} {A : Type ℓ} (R : A → A → Type 0) where
  pub data Chain : A → A → Type ℓ where
    same : {p : A} → Chain p p
    over : {p q r : A} → Chain p q → R q r → Chain p r

  abbrev pub Covered : List A → A → Type ℓ
  Covered ps q = (p : A) × Memᴰ p ps × Chain p q

  pub Chain-trans : {p q r : A} → Chain p q → Chain q r → Chain p r
  Chain-trans a same = a
  Chain-trans a (over b h) = over (Chain-trans a b) h
