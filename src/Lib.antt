-- ===== src/Lib.antt =====
-- Verification library for the Co compiler: models of its data structures, its source positions,
-- its scanner and its type identifiers, translated from the C sources, with the theorems that
-- make them correct.
--
-- The program. The compiler reads a source file with the scanner (src/co/parse/scan.c), whose
-- tokens carry positions (src/co/pos.h, src/co/pos.c) and whose names are interned symbols
-- (src/co/util/sym.c, sym.h). The parser finds what a name stands for on its stack of scopes
-- (src/co/parse/parse.c), and below it in the scopes of the package (src/co/parse/ast.c). Types
-- are compared through symbols that spell their shape (src/co/parse/typeid.c), and constants are
-- fitted to types (src/co/parse/convlit.c) by the codes of src/co/types.h. The intermediate code
-- is a graph of blocks and values (src/co/ir/ir.c, ir.h), with one value for each constant
-- (src/co/ir/constcache.c). Below all of these lie a red-black tree (src/co/util/rbtree.c.h),
-- which the symbols and the constant cache instantiate, a hash map (src/co/util/hashmap.c.h) and
-- an array (src/co/util/array.h, array.c), which holds the sources of the position map. Apart
-- from the compiler, the runtime (src/rt/sched.c) runs coroutines from rings of its own.
--
-- The files.
--   Prelude: shared names, lists and tests over the native numbers, and the bits of `bit_or`.
--   Util/KeyOrder: RBCmp and its laws, the interface that the tree takes as an instance.
--   Util/RbTree: the tree; a node is `node`, NULL is `null`. rb_set is RBSet, rb_add RBAdd,
--     rb_add_key (in KeySet) RBInsert, rb_delete (in Delete) RBDelete, rb_get RBGet, rb_has
--     RBHas, rb_count RBCount and rb_iter RBIter. Step and Insertion show an insertion as three
--     steps; Inorder, Lookup, Colour, ColourInsert and Height prove the order, the colours and
--     the balance. Below Delete, Moves, Min, Entries, Sides and Remove follow the entries through
--     a deletion, and Ready, Fit, Runs, Ways and Present show that from a red-black tree no
--     assertion of it fails.
--   Util/HashMap: Init, New, Set, Del, Get, Clear, Iter and mapGrow as map_init and so on; Bucket
--     and Tidy are about one bucket, Map about the whole map.
--   Util/Array: ArrayInit to ArrayCopy as array_init and so on; Growth, Edit and Search prove
--     them.
--   Util/Sym: the pool; Order is RBCmp on symbols, Intern the interning, Header the length word.
--   Ir/ConstCache: IRConstCacheGet and IRConstCacheAdd; Ir/Bits the bit counts, Sparse and Index
--     the sparse array, Valid and Map what the cache promises.
--   Ir/Graph: functions, blocks and values of ir.c, named as there without the IR (a freed block
--     stays in the store, marked); Flow has the edges and the order of the blocks, Consts
--     getConst64. Flow/Edges, Flow/Order, Consts/New, Consts/Cached and Uses prove them;
--     Uses/Reach has the calls that build a function.
--   Ir/Builder: the state of irbuilder.c, its functions under their names; Variables is about
--     var_write and var_read, Suspended about a function that is built inside another.
--   Pos: the positions, with the source map in SourceMap and the line offsets in Lines.
--   Parse/Token, Parse/Scan: the scanner. ScannerNext is scanner_next in Next; the layout before
--     a token is in Scan itself, names, numbers and comments in Text, operators in Punct.
--     Progress, Loops, Switch and Total show that it returns; Layout, Braces, TokenText and
--     Nesting are about the stack of indentations; Number is about numbers.
--   Parse/Scope: pushScope, popScope, lookupsym, defsym and the others under their names in lower
--     case, with ScopeLookup and ScopeAssoc over the hash map. Frames is the abstract view, Stack
--     what the writes keep, Names and Define what a name means, Nested scopes inside scopes,
--     Innermost what is asked of one scope.
--   Parse/TypeCode, Parse/TypeId, Parse/Convlit: types.h, typeid.c and convlit.c. Shape is the
--     abstract view of a type, Decode reads an identifier back, Equals is about _TypeEquals.
--   Rt/RunQueue, Rt/GlobalQueue: the run queues of src/rt/sched.c. p_runqput and the others keep
--     their names; Ring and Grab show the ring as a queue, Copy and Steal what p_runqsteal moves,
--     Batch what s_runqget does.
--   Rt/Tasks: the statuses of the Ts, with t_yield (t_yield1), t_exit, schedule, t_execute and
--     sched_spawn, on one M with its P; Waiting, Safety, Reach and Turn prove that no T is lost.
--   Rt/RandomOrder: gcd, randord_reset and the others under their names, over ByteArray, the
--     Array of that file; Bytes is about its contents, Bezout and Residues are the arithmetic,
--     Visits the enumeration, and Inside an enumeration with any step.
--   Rt/StealWork: s_stealwork over the rings of all Ps; Finds is about one pass, Tries shows that
--     it finds work.
--   Rt/VarBitmap: the bitmap of src/rt/sched.c.
--   Tests: each theorem at a concrete input.
--
-- State. A function that changes a structure returns the new one. A pointer that is compared only
-- is a number, with 0 for NULL; a pointer into the graph of a function is a place in its stores.
-- An assertion that fails is `none`, or `fault` in RBDelete. Numbers are natural, and the width
-- of a C integer is written out where the code can meet it. A source is the list of its bytes.
--
-- Bounds and fuel. The scanner takes fuel for its jumps to scan_again and for the loop over a
-- name with characters outside ASCII; more fuel than bytes left is enough, as the theorem on
-- scanner_next says. The growing of the hash map takes fuel for its retries; no theorem claims
-- that it ends. The run queue's operations are one step each, and `none` stands for a loop that
-- would start again. RBDelete takes one step of fuel for each node and one more; that is enough,
-- as the theorem on it says. The loop of gcd takes one round of fuel more than its second number,
-- and the enumeration one more than there are Ps. All other loops are recursion on the structure
-- that they walk.
--
-- Parameters. utf8decode, str_appendu64, xxHash, the hash of a map, the allocator, the generated
-- tables IROpConstFromAST and IROpInfo, the numbers of m_fastrand, and the body of a function
-- that is built are not part of what is modelled: they are arguments, and what is asked of them
-- is a hypothesis.
--
-- Not modelled: the parser but for its scopes, the syntax tree and its resolution, the
-- expressions of the intermediate code and the tables of its operations, the code generators,
-- ArraySort and all printing; of the runtime, other Ms at work, parking, timers, s_findrunnable,
-- stacks and free lists. The first three are large and stand on the parts that are here; the
-- generators call libraries that are not in the repository.
pub mod Prelude
pub mod Util
pub mod Pos
pub mod Ir
pub mod Parse
pub mod Rt
mod Tests
