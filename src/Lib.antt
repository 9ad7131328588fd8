-- ===== src/Lib.antt =====
-- Verification of the OpenSCAD evaluator in C++ (the library under src/ and include/).
--
-- A text is the list of its bytes, a byte a native number. A `std::vector` is a list, and an index a
-- position in it. Machine integers are native numbers, with the wrap-around written out where the
-- code relies on a width.
--
-- The parts, and the file that models each:
--
-- * Prelude.antt and below: shared names, Boolean tests, lists over the native numbers, the laws
--   of masks and shifts.
-- * Utf8.antt and below: src/utf8.cpp, and utf8DecodeFirst of src/builtins/function_builtins.cpp.
--   The functions have the names of the source, in snake_case; the loops are count_chars,
--   find_char and collect_chars.
-- * ScopeTrail.antt and below: include/openscad_cpp_evaluator/scope_trail.hpp. Storage is
--   ScopeTrailStorage (set is set_binding, openLevel open_level, popLevel pop_level, markDead
--   mark_dead with kill and shrink); Lookup has the reading rule, Levels and Invariant what
--   always holds, Chains the levels that a reader passes, Visible and Scopes what readers see,
--   Dyn the interning of names and the two views of dynamic variables.
-- * Zip.antt and below: src/zip_stored.cpp. Bytes and Crc are the byte order and the checksum,
--   Write is writeZipEntries with its two callers, Read is parseCentralDirectory, extractEntry
--   and the two lookups, Suffix says what the second one looks for; Layout, Entries, RoundTrip
--   and Archive hold the proofs. The compressor and the inflater of stb_image are parameters. The
--   scan of the extra fields has one round for each byte of the field, which is enough since each
--   round passes 4 at least.
-- * ListStore.antt and below: makeList and listAppend of src/value.cpp. A store is the list of
--   the buffers made so far and ListItems a view of one, which reads nothing once the vector
--   behind it has moved its elements; run_lists is a program that makes and appends, run_pure the
--   same with lists that share nothing; Views has what each operation keeps, Refines the runs.
-- * Literal.antt and below: unescapeStringLiteral of src/value.cpp. loop_round is one round of
--   its loop and escape_round the switch; Loop has its fuel and its fast path, Escape and Hex the
--   literals that are read back.
-- * Value.antt and below: the value type of include/openscad_cpp_evaluator/value.hpp and
--   osc_range.hpp, and of src/value.cpp oscEqual, oscComparable, oscTypeName, truthy, scale,
--   divScale, divInto, vecAdd, vecSub and matmul. Doubles and the operations on them are
--   parameters.
-- * Iterable.antt and below: IterableValues and ListBuilder of
--   include/openscad_cpp_evaluator/value.hpp with rangeElementCount, expandIterable and
--   appendEachInto of src/value.cpp. The walk over a range has a bound on its steps and gives
--   nothing if they do not suffice.
-- * Operators.antt, Indexing.antt and below: valueLess, applyBinaryOp, applyUnaryOp, and
--   applyRange, applyIndexAccess and applyMemberAccess of src/expr_eval.cpp. A warning is a value
--   without its position and text. A value that C++ converts to an int or an int64_t goes by the
--   parameters for these casts.
-- * Expression.antt and below: the tree walk of src/expr_eval.cpp (evalExpr, evalIdentifier,
--   evalListLiteral, evalLetExpr) with the bindings of a context as lists. C++ leaves the order
--   open in which the operands of one operator are evaluated; the model takes them from left to
--   right, as the compiler of bytecode does, so that warnings have an order. What a name that no
--   let binds evaluates to is a parameter. Contexts has what the walk does not see of a context.
-- * Bytecode.antt and below: compileExpr, the body of compileFunctionLike, and CompileScope of
--   src/bytecode_compiler.cpp, for the same expressions. Code is made for the place where it will
--   stand, instead of patching jumps. Reach and Runs are sequences of steps, Scopes sets slots
--   against bindings, Operands, Branches, ListLiterals and Lets simulate one kind of expression
--   each, Simulation and Functions put them together; Slots and Bounds are about the slots and
--   places that code names.
-- * Machine.antt (alone): the instructions of src/bytecode_vm.cpp that this code uses, and the
--   loop of driveVm over one frame, whose fuel bounds the number of instructions.
-- * CacheKey.antt and below: ManifoldCache, canonValue, valueHasClosure, canonParams and cacheKey
--   of src/manifold_cache.cpp. What snprintf, std::to_string and std::sort give are parameters
--   with the laws that are relied on; generateTreeImpl of src/csg_generate.cpp neither puts nor
--   looks up a key with a closure. That a node remembers its key is left out, as is the mark that
--   generateTreeImpl puts before the key of a difference that keeps its colours.
-- * Arguments.antt and below: BoundArgs, bindArgs, applyDefaults and bindCallArgsInto of
--   src/user_calls.cpp, the four ways in which src/bytecode_vm.cpp binds arguments to a frame and
--   the plan of src/bytecode_compiler.cpp behind one of them. Latest says what a binding
--   promises; ByPlan, ByName, ByTree and Walk are about one way each.
-- * Calls.antt and below: evalUserFunction of src/user_calls.cpp with the tree walk, and
--   compileFunctionLike, applyCompiledDefaultsToFrame and runCompiledFunction with the virtual
--   machine. Agreement, Defaults and Filling set the frame against the context of the walk,
--   Engines puts them together; Bounds is about the slots that the whole code of a function
--   names.
-- * CallArgs.antt and below: the arguments of a builtin, CallArgs and the functions of
--   src/builtins/call_args.cpp.
--
-- A loop over the positions of a text is a recursion on fuel, one round for each byte that is left,
-- which is enough since each round passes one byte at least; the theorems hold without a condition
-- on it.
--
-- Not modelled: the parser (a git submodule), Manifold and the other geometry libraries, and the
-- files that mainly call them.
-- Of expressions, calls within an expression, function literals, echo, assert and the clauses of
-- list comprehensions are not modelled, nor are tail calls and the call stack, statements,
-- modules and the CSG tree; a warning has no position, and doubles have no digits, so that
-- fmtValue and formatNumber are left out.
pub mod Arguments
pub mod Bytecode
pub mod CacheKey
pub mod CallArgs
pub mod Calls
pub mod Expression
pub mod Indexing
pub mod Iterable
pub mod ListStore
pub mod Literal
pub mod Machine
pub mod Operators
pub mod Prelude
pub mod ScopeTrail
pub mod Utf8
pub mod Value
pub mod Zip
