-- ===== src/Lib.antt =====
-- Verification of the ClaudeC99 compiler, a compiler of C that emits NASM text.
--
-- The compiler reads a file through the preprocessor (src/preprocessor.c), the lexer (src/lexer.c) and
-- the parser (src/parser.c), which builds a syntax tree (src/ast.c, include/ast.h) with types
-- (src/type.c, include/type.h). From -O1 on, src/optimize.c rewrites the tree. The code generator
-- (src/codegen.c) writes assembly text, and at -O2 src/peephole.c rewrites its lines. Text is collected
-- in growing buffers (src/strbuf.c), and lists of things in growing arrays (src/vec.c).
--
-- What models which part:
--   * Base: native numbers, lists measured by them, byte strings, Boolean tests.
--   * Long: `long` as a 64-bit pattern below 2^64, its operators, `strtol` and the printing of "%ld".
--   * Ast, Ast/Clone: src/ast.c. A tree is a term, so a shared node is a copied one; `null` is NULL.
--   * CType: src/type.c. CType/Rules: the rules of src/codegen.c on types and operands; CType/Laws and
--     CType/Arith hold what follows from them. CType/Call is compute_call_layout of src/codegen.c, and
--     CType/Placed and CType/Slots are about the slots that it gives.
--   * Optimize: src/optimize.c. Fold, Identities, Strength and Types hold the blocks of optimize_expr
--     under names of their own, in the order of the source; Expr is optimize_expr, Stmt is optimize_stmt
--     and optimize_translation_unit, with g_const_table passed in and handed back. Eval is the
--     specification: the value of a side-effect-free expression of signed operands in 64-bit arithmetic,
--     and none where C leaves it undefined. Sound compares the two. Stmt/Dead and Stmt/Scope are about
--     the statements that are left and the table of constants.
--   * Peephole: src/peephole.c. Text has the string handling, Registers, Moves, Slots and Jumps the six
--     patterns, Shapes the lines that two of them fire on, and Engine the sliding window. A character
--     array is a list of bytes without its terminator.
--   * Memory, StrBuf and Vec: src/strbuf.c and src/vec.c, with `realloc` as a parameter that is
--     described as in the C standard. A call ends with a result, with the message of a fatal exit, or gets stuck.
--   * Lexer: src/lexer.c, with include/lexer.h and include/token.h. Space has the white space and the
--     location markers, Punct the punctuators, Escape the string and character literals, Number the
--     numbers, Names the keywords and token_display_name, and Next is lexer_next_token with the loop of
--     print_tokens_mode (src/compiler.c). The text is the list of the bytes from the position on. Bounds,
--     Skipped, Spelling, Literals, Operators, Progress, Scanning, RoundTrip and Values are about these.
--   * Preprocessor: parts of src/preprocessor.c. Macros is the table of macros, Condition the evaluator
--     of #if and #elif with the operators of Operator, and Conditionals the stack of conditionals of
--     preprocess_internal, on lines whose conditions are values. Comments has splice_lines and
--     strip_cond_comments, and Whole the condition of a line. Grammar and Sections say what conditions and
--     conditionals mean in C; Splits, Atoms, Levels, Chain and Sound compare the first with the
--     evaluator, Selected and Kept the second with the stack, and Lookup and Define are about the table as a
--     map.
--   * Parser: parts of src/parser.c, with include/parser.h. A call takes the parser, of which the
--     lexer is a part, and gives the one it leaves. Tables has the tables of names and their
--     scopes, Types and TypeNames the names of types, Initializer the initializers and compound
--     literals, Constant the evaluator of constants, and Primary, Postfix, Unary and Binary the
--     expressions, one function per function of the source. These call each other through the
--     record of Calls, and Levels and Knot close the knot. Symbols, Nodes, Grammar, Values and Words say
--     what expressions, constants and the names of types are in C, as phrases between two places
--     of the text; Runs has the rules for the steps of a parser, the modules of Sound compare
--     each function with the grammar, and Scopes is about typedefs in blocks. In the
--     grammar a place of the text comes with the tables of names there, and Names says which entry of a
--     table a name means. Tags has the specifiers of enum, struct and union; at the body of a struct or a
--     union a run ends as `beyond` the model. Types are trees, so that two of them are one object is a
--     parameter.
--   * Ast/Print: src/ast_pretty_printer.c, as the bytes it writes, and Ast/Readable what is read back.
--   * Tests: runs at concrete inputs.
--
-- Bounds and fuel. The loop that counts a shift has fuel 64, since a `long` is halved at most 63 times
-- above 1. The loop that doubles a capacity has fuel 65, enough to reach any size_t from 1. The sliding
-- window has as much fuel as there are lines, plus one, since each round leaves fewer lines to the right.
-- size_t arithmetic wraps at 2^64. The loops of the lexer have the length of the text as fuel, since each
-- round passes a character, and so have those of the evaluator of conditions. A write behind the
-- 64 bytes of the lexer's buffer for numbers gets stuck. The fuel of the parser is the size of what is
-- left to read, the current token included: between two calls of the same of its functions, one inside
-- of the other, a token is passed.
--
-- Not modelled: the rest of the preprocessor (the expansion of macros and the inclusion of files); in
-- the parser the bodies of struct and union, declarators, statements and declarations, and the
-- constants of floating types; the emission of code; file I/O and the command line; failing allocation
-- outside of StrBuf and Vec. The specification of expressions of the optimizer covers neither unsigned
-- operands, nor side effects, nor the narrowing of results to 32 bits.
pub mod Base
pub mod Ast
pub mod CType
pub mod Long
pub mod Optimize
pub mod Peephole
pub mod Memory
pub mod StrBuf
pub mod Vec
pub mod Lexer
pub mod Preprocessor
pub mod Parser
pub mod Tests
