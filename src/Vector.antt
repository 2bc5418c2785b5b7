-- ===== src/Vector.antt =====
-- src/common/sla.h and src/common/MatrixUtils.h: the sparse vectors that stand for states, and the
-- text that the node tables use as their key.
pub mod Sum
pub mod Meet
pub mod Subset
pub mod Dominates
pub mod Dense
pub mod Matrix
pub mod Examples
use zmdp.Prelude.{ℕ, List, [], ◌∷◌, ◌++◌, String, ltb, ◌==◌, if◌then◌else◌, length}
use Prim.Native.String.{◌++◌ as str_append}
use zmdp.Double.{Double}

module _ ⦃d : Double⦄ where
  open d use {Num, mul, nought, format}

  pub record CVectorEntry : Type 0 where
    pub index : ℕ
    pub value : Num

  pub record CVector : Type 0 where
    pub size : ℕ
    pub entries : List CVectorEntry

  -- `operator()`: the entries stand in the order of their indices.
  pub get_entry : List CVectorEntry → ℕ → Num
  get_entry [] i = nought
  get_entry (e ∷ es) i =
      if ltb e.index i then get_entry es i else if e.index == i then e.value else nought

  unfoldable pub get : CVector → ℕ → Num
  unfolding get_entry
  get v i = get_entry v.entries i

  unfoldable pub filled : CVector → ℕ
  filled v = length v.entries

  -- `resize`: the entries are dropped.
  unfoldable pub resize : CVector → ℕ → CVector
  resize v n = record { size = n; entries = [] }

  unfoldable pub push_back : CVector → ℕ → Num → CVector
  push_back v i x = record v { entries = v.entries ++ (record { index = i; value = x } ∷ []) }

  -- `*=`
  unfoldable pub scale_values : Num → List CVectorEntry → List CVectorEntry
  scale_values s [] = []
  scale_values s (e ∷ es) = record { index = e.index; value = mul e.value s } ∷ scale_values s es

  unfoldable pub scale : Num → CVector → CVector
  scale s v = record v { entries = scale_values s v.entries }

  -- The text of the entries one after the other. (A vector without entries, for which the function
  -- leaves its buffer as it was, is not a state of any problem of the program.)
  format_entries : List CVectorEntry → String
  format_entries [] = ""
  format_entries (e ∷ es) = str_append (format e.index e.value) (format_entries es)

  unfoldable pub hashable : CVector → String
  unfolding format_entries
  hashable v = format_entries v.entries
