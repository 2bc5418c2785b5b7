-- ===== src/Search/Examples.antt =====
-- The theorems on src/search at the sample problem.
use zmdp.Prelude.{ℕ, zero, suc, ◌≡◌, refl, List, true, false, [], ◌∷◌, some, arith, ltb, get_elem?}
use zmdp.Double.{lt}
use zmdp.Double.Fixed.{fixed, fixed_mul}
use zmdp.Vector.{hashable}
use zmdp.Bounds.Point.{init_lower, init_upper}
use zmdp.Bounds.Cache.{Core, find, write}
use zmdp.Bounds.Pair.{initialize, get_node}
use zmdp.Bounds.Pair.GetNode.{Got, get_node-Got}
use zmdp.Bounds.Pair.Valid.{IsValid, initialize-IsValid, get_node-IsValid}
use zmdp.Bounds.Pair.Chosen.{IsTight, get_node-InRange}
use zmdp.Bounds.PointPair.{point_pair, point_pair-IsTight}
use zmdp.Search.{Settings, Search, init}
use zmdp.Search.Backup.{IsGood}
use zmdp.Search.Hsvi.Total.{Stops}
use zmdp.Search.Hsvi.Trial.{gap, Ended, do_trial-Ended}
use zmdp.Search.NodeStack.{NodeStack, mem, contains, push, popped}
use zmdp.Search.NodeStack.Agrees.{Agrees, push-popped-Agrees}
use zmdp.Sample.{
  sample, sample_pair, start_state, best_value, blank_node, sample-StartsValid, sample_pair-IsSound,
}

abbrev pub settings : Settings
settings = record {
  target_precision = 101;
  terminate_num_backups = 50;
  use_log_backups = true;
  unit_rand = λ n. 105;
}

abbrev empty_core : Core
empty_core = initialize (λ _. blank_node)

abbrev started : ℕ × Core
started = get_node sample_pair start_state empty_core

abbrev started_search : Search
started_search = record (init (λ _. blank_node)) { core = started.1 }

empty-IsValid : IsValid sample_pair best_value best_value empty_core
empty-IsValid = initialize-IsValid sample_pair sample_pair-IsSound (λ _. blank_node)

started-Got : Got sample_pair start_state empty_core started.0 started.1
started-Got =
    get_node-Got sample_pair sample_pair-IsSound.keeps start_state empty_core empty-IsValid.table

sample_pair-IsTight : IsTight sample_pair best_value 100 150
sample_pair-IsTight =
    point_pair-IsTight (λ _. 100) (λ _. 150) [] true best_value best_value sample-StartsValid 100
      150 (λ s. ground arith) (λ s. omega arith) (λ s. omega arith) (omega arith) (omega arith)

started-IsGood : IsGood sample_pair settings best_value best_value 100 150 started.1
unfolding initialize
started-IsGood = record {
  valid = get_node-IsValid sample_pair sample_pair-IsSound start_state empty_core empty-IsValid;
  range =
      get_node-InRange sample_pair sample_pair-IsSound 100 150 sample_pair-IsTight start_state
        empty_core empty-IsValid.table
        (record { upper = λ i h. omega arith; lower = λ i h. omega arith });
}

started-gap : gap sample_pair settings started_search started.0 ≡ 150
unfolding get_node find initialize write point_pair init_lower init_upper hashable
started-gap = refl

likely_half :
    (j prob : ℕ) → get_elem? (105 ∷ 100 ∷ 105 ∷ []) j ≡ some prob → lt 100 prob ≡ true → prob ≡ 105
likely_half zero prob e h = ground arith
likely_half (suc zero) prob e h = ground arith
likely_half (suc (suc zero)) prob e h = ground arith
likely_half (suc (suc (suc j))) prob e h = cc

half-wide : (v : ℕ) → ltb 0 (fixed_mul 105 v) ≡ true
half-wide v = ground arith

sample-Stops : Stops sample_pair settings 145 best_value best_value 100 150 2
sample-Stops = record {
  far = omega arith;
  outcome = λ s a h. (0, 105, refl, refl);
  wide = λ s s' a j prob x y k _ e h up down le. rw (likely_half j prob e h) (half-wide _);
}

started-Stops :
    Stops sample_pair settings
      (fixed_mul (gap sample_pair settings started_search started.0) 109)
      best_value
      best_value
      100
      150
      2
started-Stops = rw started-gap sample-Stops

do_trial-Ended_example :
    Ended sample_pair settings best_value best_value 100 150 3 started.0 started_search
do_trial-Ended_example =
    do_trial-Ended sample_pair settings sample_pair-IsSound 100 150 sample_pair-IsTight 3 2
      started.0 started_search started-Stops (omega arith) started-Got.below started-IsGood

abbrev two_nodes : NodeStack
two_nodes = record { data_ = 7 ∷ 3 ∷ []; lookup = 7 ∷ 3 ∷ [] }

two_nodes-Agrees : Agrees two_nodes
unfolding contains mem
two_nodes-Agrees = record { distinct = (refl, (refl, tt)); same = λ m. refl }

push-popped-Agrees_example :
    ((n : ℕ) → contains n two_nodes ≡ false → Agrees (push n two_nodes))
    × ((n : ℕ) (rest : List ℕ) → two_nodes.data_ ≡ n ∷ rest → Agrees (popped n rest two_nodes))
push-popped-Agrees_example = push-popped-Agrees two_nodes two_nodes-Agrees
