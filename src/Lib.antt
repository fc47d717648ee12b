-- ===== src/Lib.antt =====
-- A verification library for rust-cobol, a COBOL compiler written in Rust and its runtime.
--
-- The compiler reads a program through a preprocessor, a lexer and a parser, checks it in the
-- semantic analysis, and lowers it to C that calls the runtime. Modelled here are the parts of it
-- whose logic stands by itself:
--   Common: crates/cobol-common/src. Spans, language standards, source files with their table of
--     line starts, and the source map that numbers them.
--   Diagnostics: crates/cobol-diagnostics/src/diagnostic.rs and reporter.rs. Messages, and the
--     reporter that keeps, promotes or drops them by its warning level.
--   Picture: crates/cobol-sema/src/picture_analyzer.rs. `expand` (Picture/Expand), the loop of
--     `analyze` (Picture/Scan), `determine_category` (Picture/Category), `analyze` (Picture/Analyze).
--   Symbols: crates/cobol-sema/src/symbol_table.rs. Scopes and lookup (Symbols/Table), qualified
--     names (Symbols/Qualify).
--   Decimal: crates/cobol-runtime/src/decimal.rs. `cobol_decimal_add` and its siblings are `add`,
--     `sub`, `mul`, `div` and `cmp` (Decimal/Core), the conversions stand in Decimal/Convert, and
--     `cobol_decimal_from_string` in Decimal/Parse.
--   Sort: crates/cobol-runtime/src/sort_merge.rs. The readings of a key's bytes (Sort/Keys),
--     `compare_records` (Sort/Compare), `cobol_sort` (Sort/Records), and the sort buffers of SORT
--     with RELEASE and RETURN (Sort/Buffer).
--   Lexer: crates/cobol-lexer/src. The lines of a source in the fixed, variable and free formats,
--     over UTF-8 bytes (Lexer/Reader, of source_reader.rs), the kinds of tokens and the keyword table
--     (Lexer/Kinds, Lexer/Keywords, of token.rs), and of lexer.rs the lines joined to one content
--     (Lexer/Segments), `Lexer::new` with its offset map (Lexer/New), the loops over the bytes
--     (Lexer/Scan) and the tokenizer (Lexer/Tokens), all of it in one (Lexer/Total). `self.pos`
--     is the place between the bytes `before` it, the last one first, and the `rest`. Each `lex_`
--     function gives the lexeme that it decides on, and `emit` makes the token of it and moves
--     on.
--   Strings: crates/cobol-runtime/src/string_ops.rs. Comparison (Strings/Compare), the class
--     conditions (Strings/Class), MOVE (Strings/Move), INSPECT (Strings/Inspect), STRING
--     (Strings/Concat), UNSTRING (Strings/Unstring) and numbers in DISPLAY fields
--     (Strings/Zoned). A field is the list of its bytes; a null pointer is not modelled.
--   Preprocessor: crates/cobol-preprocessor/src/replacer.rs. `replace_whole_word`
--     (Preprocessor/Replacer) over UTF-8 bytes, and the text read place by place (Preprocessor/Places).
--   Calls: crates/cobol-runtime/src/program.rs. The stack of CALL and GOBACK, with programs that run
--     as the emitted code does (Calls/Program).
--   Threads: crates/cobol-runtime/src/threading.rs. The mutexes, as threads that take atomic steps
--     (Threads/Mutex): `lock_get` and `lock_try` make up `cobol_mutex_lock`, `unlock_get` and
--     `unlock_store` make up `cobol_mutex_unlock`. Of the mutexes that a thread has locked the model
--     keeps the last, so that its theorem is about threads that lock a mutex only while they hold none.
--   Exceptions: crates/cobol-runtime/src/exception.rs. The codes, RAISE and RESUME, and the stack of
--     handlers that the generated code pushes and pops.
--
-- How the code is represented. A function that changes `self`, or a global behind its mutex,
-- takes the state and returns the new one. Text is a list of character codes and a slice a list
-- of bytes (Prelude/Text). Signed machine integers are integers with the wrap-around of a release
-- build written out, u32 is taken modulo 2^32 (Prelude/Words). Raw pointers are the values behind
-- them, and a call that writes through a pointer returns what it writes. A longjmp is a value
-- that says which handler is reached. The Rust standard library is modelled by what it documents:
-- `sort_by` as a stable sort, `binary_search` as the search in a strictly ascending list, a
-- HashMap as an association list. Allocation, locking and output have no model.
--
-- Panics are `none`: of a slice of a str that begins or ends inside a character, which the areas of a
-- line and with them `Lexer::new`, the tokens, and the replacement of words can make; of a quotient
-- that overflows; and of records of length 0 that are to be sorted.
--
-- Fuel. The walk of `lookup` has a round for each scope, which is enough as a parent always stands
-- before its scope. The walk of `build_ancestor_chain` has the 50 rounds of the source. `lex_all` has
-- two rounds for each byte and one more: a token takes a byte at least, or ends the picture mode.
-- The loops of INSPECT, of UNSTRING's repeated delimiters and of the replacement of words have a
-- round for each byte.
--
-- Not modelled: the preprocessor but for the replacement of words, the parser, name resolution,
-- type checking, the lowering and the code generator but for the code of CALL, and the other files
-- of the runtime, which are mostly input and output. In the files that are modelled, these are left
-- out: the moves to an edited and to a printed field, decimals printed by a picture and their
-- conversions to and from floating point, `cobol_merge`, which reads files, `cobol_invoke`, which
-- jumps into generated code, and the renderer of diagnostics.
pub mod Prelude
pub mod Common
pub mod Diagnostics
pub mod Picture
pub mod Decimal
pub mod Sort
pub mod Symbols
pub mod Lexer
pub mod Threads
pub mod Exceptions
pub mod Strings
pub mod Preprocessor
pub mod Calls
