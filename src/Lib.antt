-- ===== src/Lib.antt =====
-- Verification of learch, a symbolic execution engine: KLEE with search strategies that Learch adds,
-- among them one that a learned model guides.
--
-- The program interprets LLVM code on symbolic inputs. The executor keeps a set of states; a strategy
-- (a searcher) selects the state that runs next, the instruction may fork states and end them, and
-- the executor tells the strategy. The states map memory by persistent search trees, a solver decides
-- which branches are feasible, and each path that ends is written as a test case.
--
-- Which file models which part:
--   Prelude             shared names: the numbers' Boolean tests, and lists with native lengths.
--   Tree                klee/include/klee/Internal/ADT/ImmutableTree.h: the nodes of the persistent
--                       tree with cached heights, `balance` with its rotations, `insert`, `replace`,
--                       `remove`, `popMin`, `popMax`, `lookup`, `lookup_previous`, `min`, `max`.
--                       Tree/Heights is about balance, Tree/Inorder and Tree/Order about the order,
--                       Tree/Laws and Tree/Refine about lookups.
--   KTest               klee/lib/Basic/KTest.cpp: `kTest_fromFile`, `kTest_toFile`, `kTest_numBytes`.
--                       KTest/Codec gives the format, KTest/RoundTrip and KTest/Errors the laws.
--   Searcher            klee/lib/Core/Searcher.h and Searcher.cpp: the interface of all strategies.
--                       Searcher/Contract says what the executor relies on in each of them,
--                       Searcher/Counting and Searcher/Unique are about the shared removal loops.
--   Searcher/Base       DFSSearcher, BFSSearcher, RandomSearcher.
--   Searcher/Learned    MLSearcher. The Python model is one function of the states that it is asked
--                       about, and rewards are strictly ordered: NaN is no reward.
--   Searcher/Subpath    SubpathGuidedSearcher, with `getSubpath`, `getSubpathCount` and `incSubpath`
--                       of klee/lib/Core/Executor.cpp.
--   Searcher/Branching, Searcher/Batching, Searcher/Interleaved, Searcher/Deepening
--                       the strategies over other strategies: BranchingSearcher, BatchingSearcher,
--                       InterleavedSearcher and IterativeDeepeningTimeSearcher. They take the
--                       contract of what they stand on as a parameter.
--   Executor            klee/lib/Core/Executor.cpp: `updateStates`, `terminateState` and the loop of
--                       `run`. Executor/Actions is about the pending lists, Executor/Run about runs.
--                       What the timers and `checkMemoryUsage` do to the pending lists is part of
--                       what an instruction does.
--   Solver              klee/lib/Solver/Solver.cpp and SolverImpl.cpp: `evaluate`, `mustBeTrue`,
--                       `mustBeFalse`, `mayBeTrue`, `mayBeFalse` and the default `computeValidity`,
--                       over queries that an interface describes. Solver/Meaning says what a right
--                       answer is, Solver/Front is about the front end.
--   Solver/Incomplete   klee/lib/Solver/IncompleteSolver.cpp: partial answers, StagedSolverImpl.
--   Solver/Caching      klee/lib/Solver/CachingSolver.cpp: CachingSolver, on questions of truth and of
--                       validity.
--   Solver/Range        klee/lib/Solver/Solver.cpp: `getRange` with its three binary searches, and
--                       `maxValueOfNBits` of klee/include/klee/util/Bits.h. The fuel of a search is
--                       the length of its interval, which every step shortens.
--   Solver/Validating   klee/lib/Solver/ValidatingSolver.cpp: ValidatingSolver, on questions of truth
--                       and of validity.
--   Expressions         klee/include/klee/Expr/Expr.h, klee/lib/Expr/Expr.cpp and
--                       klee/lib/Expr/Updates.cpp: the kinds of expressions and what `create` makes
--                       of them. Expressions/ApInt asks of LLVM's APInt what ConstantExpr relies on,
--                       and Expressions/ApInt/Machine is an instance; Expressions/Meaning gives
--                       types and values, and `Means` says that one expression may stand for
--                       another. Expressions/Constants has the folding of constants and the macros
--                       around it, Logical the conjunctions, disjunctions and products, Equal the
--                       equalities and exclusive disjunctions, Sums the sums and differences, Orders
--                       the comparisons, shifts and divisions, Choice the selections, Slicing the
--                       concatenations, slices and extensions, Reads the reads of arrays,
--                       Temporary `createTempRead` on the widths of the types (another width fails
--                       an assertion), and Creation `createFromKind` on the binary kinds. Sums
--                       and slices recur on what they have built: their fuel is counted by the
--                       sums, and by the slices and concatenations, that the kids hold.
--   Expressions/Queries klee/include/klee/Solver/Solver.h: queries over expressions, which fill the
--                       interface that the solvers take. Expressions/Ranges has the queries that `getRange`
--                       creates, and `getRange` over expressions.
--
-- How the code is read: a class is a record of its fields, and a virtual class a record of its
-- operations; a method is a function from the fields to the new fields, in `Option` where the code can
-- fail an assertion or step out of bounds. A state is its address. A vector is a list, a C++ map or
-- set a list without duplicates. Numbers are unbounded where the code cannot reach their bound, and
-- carry `% 2 ^ w` where it can. The clock, the random numbers, the learned model and what an
-- instruction does to the program are parameters.
--
-- Recursion is on lists and trees. The executor's loop is counted by the instructions until the halt,
-- so that its fuel is the run's length and every length is covered.
--
-- Not modelled: reference counts and `delete`, printing, the interpretation of instructions,
-- visitors of expressions and the constraint manager, the solver backends, the strategies over weights,
-- process trees and merge points, and the LLVM passes.
mod Prelude
pub mod Solver
pub mod Executor
pub mod Expressions
pub mod Tree
pub mod KTest
pub mod Searcher
