-- ===== src/Search/NodeStack.antt =====
-- NodeStack of src/search/RTDPCore.h.
pub mod Agrees
use zmdp.Prelude.{ℕ, Bool, false, List, [], ◌∷◌, ◌==◌, ◌||◌, if◌then◌else◌}

-- The keys of a hash table whose values are all true.
unfoldable pub mem : ℕ → List ℕ → Bool
mem n [] = false
mem n (m ∷ ms) = n == m || mem n ms

unfoldable pub erase : ℕ → List ℕ → List ℕ
erase n [] = []
erase n (m ∷ ms) = let rest = erase n ms in if n == m then rest else m ∷ rest

pub record NodeStack : Type 0 where
  pub data_ : List ℕ
  pub lookup : List ℕ

abbrev pub empty_stack : NodeStack
empty_stack = record { data_ = []; lookup = [] }

unfoldable pub push : ℕ → NodeStack → NodeStack
push n t = record {
  data_ = n ∷ t.data_;
  lookup = if mem n t.lookup then t.lookup else n ∷ t.lookup;
}

-- `pop` of a stack with `n` on top and `rest` below; the code pops no empty stack.
unfoldable pub popped : ℕ → List ℕ → NodeStack → NodeStack
popped n rest t = record { data_ = rest; lookup = erase n t.lookup }

unfoldable pub contains : ℕ → NodeStack → Bool
contains n t = mem n t.lookup
