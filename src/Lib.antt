-- ===== src/Lib.antt =====
-- A verification library for inty, a static type checker with type inference for JavaScript, Lua
-- and Python (crates/inty), for the bundler beside it (crates/inty-bundle), for the kinds of the
-- Go backend (crates/inty-go), and for the positions of the language server (crates/inty-lsp).
-- The inference engine keeps its unknown types in a union-find table
-- (crates/inty/src/infer/var_table.rs) and in a substitution (crates/inty/src/types/subst.rs).
-- Both record their writes on a trail, so that a speculative branch is rolled back by undoing
-- them. The bundler loads the modules that an entry file reaches, rejects import cycles, and
-- orders the modules for emission (crates/inty-bundle/src/lib.rs, graph.rs).
-- Common: the names that all modules share: Boolean tests on numbers, lists, hash maps as
-- association lists (Common/Dict), pigeonhole arguments (Common/Distinct, Common/Outside).
-- Infer/VarTable: the table, one command for each method of VarTable; a run
-- (Infer/VarTable/Rollback/Runs) is a list of those that record their writes, which commit_trail,
-- take_bound and restore_bound do not; a command returns none where the Rust code panics. The
-- loop of find runs for the source's own bound, the number of cells plus one, which is enough on
-- every table whose links make no cycle.
-- Infer/Zonk: crates/inty/src/infer/zonk.rs, the replacement of bound variables, in types, in
-- schemes and at the head of a type. The depth that ApplySubstGuard leaves
-- (crates/inty/src/types/subst.rs) is an argument, so that a type nested deeper is an error with
-- the overflow flag set, as in the source; the loops for a head run for the source's own 64
-- rounds. Infer/Zonk/Expand says what is meant, by reading the cells, and Infer/Zonk/Rebuilt what
-- the walk over the parts of a type must give, each written apart from the walk of the code.
-- Visited is left out, since only a debug assertion reads it. An export's order and a row's
-- fields are lists in the order of the keys.
-- Infer/Env: the type environment, crates/inty/src/infer/env.rs, over persistent hash maps that
-- are parameters with the laws of Common/PersistentMap, which lists of entries meet. A loop over
-- a map goes over its entries in the order that the map gives them.
-- Types/Ty: the types (crates/inty/src/types/ty.rs). Types/Subst: the substitution as a store,
-- one function for each method of Subst that reads or writes entries. The loops of resolve and
-- resolve_presence, which stop at a key visited before, have one round more than there are keys,
-- which is enough for every chain that ends.
-- Types/Row: fields, rows, schemes and typed arrays; Types/Free and Types/Named: free type and
-- presence variables of types and schemes, and named ids (crates/inty/src/types/ty.rs).
-- Types/Union: unions, from Type::union to Type::arms, with the equality of types and the keys
-- that order members (crates/inty/src/types/ty.rs). The call of Type::union in its own body runs
-- on fuel of two rounds, which is enough on every list of members.
-- Types/Widen: the widening of literal types (crates/inty/src/types/ty.rs).
-- Types/Tidy: the canonical ids of variables for display (crates/inty/src/types/tidy.rs); a
-- counter wraps at 32 bits.
-- Dynamics: the heap, the environments and the variables of the small-step interpreter
-- (crates/inty/src/dynamics); floats and function bodies are parameters.
-- Bundle/Graph: ModuleGraph and its depth-first order; the recursion of visit has one level more
-- than there are modules, which is enough on every graph. Bundle/Loader: load_module, and bundle
-- from the canonical path of the entry up to emission, over a file system, path operations and a
-- parser that are parameters; the recursion has a bound, and more than the number of files of the
-- disk is enough.
-- Lsp/Convert: crates/inty-lsp/src/convert.rs, byte offsets and positions in a text that is the
-- list of its code points.
-- Go/Kinds: crates/inty-go/src/kinds.rs, which number places of a program are integers: the
-- constraints and their union-find (Go/Kinds), the flow of kinds along edges (Go/Kinds/Flow) and
-- solve (Go/Kinds/Solve). The loops of find have one round more than there are places, those over
-- a work list one more than the list and twice the places, or once for marks, and the last loop
-- of solve one more than twice the places, since each of its rounds raises a kind.
-- Frontends/Lua/Lexer: the lexer for Lua, crates/inty/src/frontends/lua/lexer.rs, from a source
-- that is the list of its code points to its tokens with their spans; the Unicode classes of char
-- and the reading of floats are parameters. The loops of skip_trivia and of tokenize have one
-- round more than there are characters left, which is enough.
-- Span: crates/inty/src/span.rs.
-- Not modelled: the other frontends, the parser for Lua, unification and the inference of
-- language features, printing, the emitters, the evaluation of expressions and statements, the
-- command line; debug assertions, sharing by Arc and Rc, memory limits and the text of messages.
mod Common
pub mod Bundle
pub mod Dynamics
pub mod Frontends
pub mod Go
pub mod Infer
pub mod Lsp
pub mod Span
pub mod Types
