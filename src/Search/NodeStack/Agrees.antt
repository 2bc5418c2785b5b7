-- ===== src/Search/NodeStack/Agrees.antt =====
-- About the table and the stack of NodeStack in src/search/RTDPCore.h.
use zmdp.Prelude.{
  ℕ, ◌≡◌, refl, sym, ap, ◌∙◌, false, List, [], ◌∷◌, ◌==◌, ◌||◌, Bool-cases, inl, inr, arith, subst,
}
use zmdp.Search.NodeStack.{NodeStack, mem, erase, push, popped, contains}

-- No node is on the list twice.
abbrev pub Distinct : List ℕ → Type 0
Distinct [] = Unit
Distinct (n ∷ ns) = (mem n ns ≡ false) × Distinct ns

pub record Agrees (t : NodeStack) : Type 0 where
  pub distinct : Distinct t.data_
  pub same : (m : ℕ) → contains m t ≡ mem m t.data_

mem-erase_self : (n : ℕ) (ns : List ℕ) → mem n (erase n ns) ≡ false
unfolding mem erase
mem-erase_self n [] = refl
mem-erase_self n (k ∷ ks) = elim (Bool-cases (n == k)) [
  | inl e ↦ rw e (mem-erase_self n ks)
  | inr e ↦ rw e (rw e (mem-erase_self n ks))
]

mem-erase_other : (m n : ℕ) (ns : List ℕ) → (m == n) ≡ false → mem m (erase n ns) ≡ mem m ns
unfolding mem erase
mem-erase_other m n [] h = refl
mem-erase_other m n (k ∷ ks) h = elim (Bool-cases (n == k)) [
  | inl e ↦ let other : (m == k) ≡ false = ground arith in rw (e, other) (mem-erase_other m n ks h)
  | inr e ↦ rw (e, mem-erase_other m n ks h) refl
]

-- `push` of a node that is not on the stack, and `pop`, keep the table and the stack in agreement.
pub push-popped-Agrees :
    (t : NodeStack)
    → Agrees t
    → ((n : ℕ) → contains n t ≡ false → Agrees (push n t))
      × ((n : ℕ) (rest : List ℕ) → t.data_ ≡ n ∷ rest → Agrees (popped n rest t))
unfolding push popped contains mem
push-popped-Agrees t a = (pushed, pop)
  where
    pushed : (n : ℕ) → contains n t ≡ false → Agrees (push n t)
    pushed n h = record {
      distinct = (sym (a.same n) ∙ h, a.distinct);
      same = λ m. rw h (ap (λ x. m == n || x) (a.same m));
    }

    pop : (n : ℕ) (rest : List ℕ) → t.data_ ≡ n ∷ rest → Agrees (popped n rest t)
    pop n rest e =
        let d : Distinct (n ∷ rest) = subst Distinct e a.distinct in
        record {
          distinct = d.1;
          same = λ m. (elim (Bool-cases (m == n)) [
            | inl here ↦ let k : m ≡ n = ground arith in rw (k, mem-erase_self n t.lookup) (sym d.0)
            | inr other ↦
                let s : contains m t ≡ mem m (n ∷ rest) = a.same m ∙ ap (mem m) e in
                mem-erase_other m n t.lookup other ∙ s ∙ rw (mem, other) refl
          ]);
        }
