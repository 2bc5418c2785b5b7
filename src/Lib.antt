-- ===== src/Lib.antt =====
-- ZMDP: heuristic search for Markov decision processes and POMDPs (the sources are in src).
--
-- The program plans by search from an initial state. A node table (src/bounds/BoundPair.cc) holds a
-- node for each state met, with a lower and an upper bound on its value; `update` backs up the bounds
-- of a node from those of its successors, which `expand` creates. Bounds implement the interfaces
-- IncrementalLowerBound and IncrementalUpperBound; the point bounds keep their values at the nodes.
--
-- Files:
-- - Prelude and its children: shared names, Boolean tests, lists by native numbers.
-- - Double: the type `double`. The numbers are the doubles that are not NaN, in their linear order,
--   with the operations and constants of the code as parameters. IsMonotone states what is assumed of
--   rounding: sums, and products by a number that is not negative, keep the order. Double/Fixed is an
--   instance that meets it.
-- - Vector: sparse state vectors (src/common/sla.h) and their text key (src/common/MatrixUtils.h,
--   hashable). The text that snprintf writes for one entry is the parameter `format`.
-- - Model: struct MDP (src/common/MDPModel.h), whose methods are parameters of all that follows.
-- - Bounds/Cache: nodes, edges, Q entries and the node table (src/bounds/MDPCache.h and the state of
--   src/bounds/BoundPairCore.h). A pointer is a place in a heap that is a function from numbers.
-- - Bounds/Core: getMaxUBAction and getSimulatedOutcome (src/bounds/BoundPairCore.cc); the random
--   number is an argument. Bounds/Core/Best is about getMaxUBAction.
-- - Bounds/Point: src/bounds/PointLowerBound.cc and src/bounds/PointUpperBound.cc. Point/Slots and
--   Point/UseCache are about the loop of updateUseCache, which runs on a round for each action.
-- - Bounds/Pair: src/bounds/BoundPair.cc, a function for each method. Pair/Dual relates the joint
--   update to the separate ones; Pair/Table, GetNode, Expand, Update, Sound and Valid are the
--   invariants of the table and of the bounds.
-- - Bounds/PointPair: the pair of point bounds that src/main/solverUtils.cc builds;
--   PointPair/Reached is about every table that getNode and update make with it.
-- - Vector/Sum: add and subtract of src/common/sla.h, whose merge loops are one function.
-- - Bounds/Pair/Chosen: the action that the joint update hands back, and the range of the bounds;
--   Pair/Data is about the data that a search keeps at the nodes.
-- - Search: what the search algorithms share (src/search/RTDPCore.cc); Search/Backup is about a
--   backup in a search, Search/NodeStack (with Agrees) is NodeStack of src/search/RTDPCore.h, and Search/Residual
--   what LRTDP and HDP do with cached values.
-- - Search/Hsvi: src/search/HSVI.cc, without the adaptive depth, as it is built by default.
--   Hsvi/Chosen is about the outcome that a trial follows, Hsvi/Total about the trial, Hsvi/Trial
--   about doTrial.
-- - Search/Rtdp, Search/Lrtdp, Search/Hdp and Search/Frtdp: src/search/RTDP.cc, LRTDP.cc, HDP.cc
--   and FRTDP.cc; Frtdp/MaxPrio, Update and Depth are about FRTDP's outcome, update and trial. Random numbers
--   are a stream, and a failed assertion or a null pointer is a fault.
-- - Mdps/CacheMdp: src/mdps/CacheMDP.cc. CacheMdp/Refines says when its table agrees with the
--   problem, CacheMdp/GetQ that getNodeX and getQ keep that, CacheMdp/Serves what the interface
--   answers.
-- - Vector/Meet, Subset, Dominates, Dense and Matrix: what goes through two sparse vectors, the mask
--   tests of src/common/sla_mask.h, dominance, dense vectors and the copies between both kinds, and
--   the matrices of src/common/sla.h.
-- - Bounds/Pair/Frame: what an update leaves as it was.
-- - Pomdp: src/pomdpCore/Pomdp.cc, a POMDP as a problem of beliefs.
-- - Planes: src/pomdpBounds/MaxPlanesLowerBound.cc. Planes has the planes and the search for the
--   best one, Planes/Prune the pruning with the support lists and back pointers, Planes/Store the
--   backup and the pointers from nodes to planes. Planes/Best, Covered, Apart, Pointers, Kept, Update and
--   Returns are about them.
-- - Sawtooth: src/pomdpBounds/SawtoothUpperBound.cc; Sawtooth/Update has the backup of a node,
--   Value, Covered and UseCache are about getValue, prune and getNewUBValue.
-- - Initializers: the initial bounds. Blind, FullObs and FastInf are src/pomdpBounds/BlindLBInitializer.cc,
--   FullObsUBInitializer.cc and FastInfUBInitializer.cc, Relax is src/bounds/RelaxUBInitializer.cc;
--   Corner and SecondBest are about the end of initFIB and about getMaxUBAction.
-- - Exec: the simulation (src/common/MDPSim.cc), the drawing of outcomes (src/common/MatrixUtils.h) and
--   the executors' states (src/exec/MDPExec.cc, BoundPairExec.cc). Exec/Choose is about the drawing.
--   Exec/Evaluate is doBatchSimple of src/exec/PolicyEvaluator.cc, Evaluate/Trial is about its trials.
-- - Search/StateLog: src/search/StateLog.cc. The file of an index is a sequence of lines whose text
--   is a parameter; StateLog/RoundTrip is about writing and reading it.
-- - Mdps/Discrete: src/mdps/GenericDiscreteMDP.cc. A state is a number in a vector of length 1;
--   Discrete/Outcomes is about its outcomes and its upper bound.
-- - Mdps/RaceTrack: PropertyList of src/mdps/RaceTrack.cc. What sscanf reads of a line is a
--   parameter; RaceTrack/Properties is about the values that the lines give.
-- - Sample, and the modules Examples: a small problem and the theorems at it.
--
-- An int that is -1 for "no action" is an Option. The vector operations of sla.h leave out their
-- assertions that two vectors have the same size. Counters are unbounded numbers.
-- The trials recurse on fuel. For HSVI the fuel counts the depths up to the one at which the trial's
-- precision allows the whole range of the bounds, and for FRTDP those up to the first beyond its largest
-- depth. The trials of RTDP, LRTDP and HDP follow the problem until a state is terminal or solved, and
-- have no bound of their own. Those of the evaluator run on as many steps as the configuration
-- allows, or on fuel if it allows any number.
-- Not modelled: parsing, configuration, logging to files, the files of policies, time limits,
-- doBatchCache of src/exec/PolicyEvaluator.cc and, of the example problems, the map and
-- the moves of src/mdps/RaceTrack.cc and the template src/mdps/CustomMDP.cc.
pub mod Prelude
pub mod Double
pub mod Vector
pub mod Model
pub mod Bounds
pub mod Search
pub mod Mdps
pub mod Planes
pub mod Pomdp
pub mod Sawtooth
pub mod Initializers
pub mod Exec
pub mod Sample
