-- ===== src/Lib.antt =====
-- A verification library for the core of the SLI interpreter.
--
-- The scanner turns bytes into tokens; the parser calls it and collects the tokens between braces
-- into procedures; names are looked up in a stack of dictionaries, through two caches; the dispatcher
-- takes tokens off an execution stack and calls functions, which tries of type signatures choose by
-- the operands; operators work on a stack of operands, and control operators on the execution stack
-- too. A stack can be written as bytes and read back.
--
-- Prelude: the names and lemmas that all parts share.
-- Scanner: src/parser/sli_scanner.cpp, sli_scanner.h and sli_charcode.cpp. Charcode is the table of
--   character codes, States the enumerations, Trans the transition table with its rows in child
--   modules, Lexeme the tokens and `strtoll`, and Scan the function `operator()`: `scan_loop` is its
--   loop, `round` one round, `act` the switch. The state that lives from call to call is the record
--   `Scanner`, the variables of a call the record `Scan`. Bytes, Digits, Integers, Zeros, Literals, Signs,
--   Strings, Quotes, Comments, Words, Names and SignedNames are about what one call reads; Print is
--   `pprint` of src/types/sli_stringtype.cpp; Total is about all inputs.
-- Parser: `operator()` of src/parser/sli_parser.cpp, in Parse; it calls `scan`. Rounds is about
--   its loop, Procedures has the grammar of what stands between braces, Total is about all inputs.
-- Dict: src/containers/sli_dictstack.h and sli_dictstack.cpp, over the map of sli_dictionary.h. Map
--   is the map, Cache the vectors of pointers, Stack the lookups, Change the operations that change
--   the stack. Coherent is the invariant, Keeps and Restore the operations under it, Runs the
--   sequences of operations as an indexed type of steps.
-- Stack: src/builtins/sli_stack.cpp with the bodies in sli_op_bodies.h. TokenStack is the vector of
--   src/containers/sli_tokenstack.h, Operators one function for each operator over the record
--   `Machine` of both stacks and a heap of arrays, an error being a value; Turns, Loads, Rolls,
--   Copies and Saves are about what the operators do, Errors about all of them.
-- Names: the interning of src/containers/sli_name.cpp, in Table; Interning is about it.
-- Trie: src/trie/sli_type_trie.h and sli_type_trie.cpp. TypeNode has the nodes, `insert` as
--   `insert_function` and `lookup` as `lookup_function`; Arrays the array form. Stored is the map from
--   signatures to functions that a trie stands for; Keeps, Alternatives, Insert and Ambiguous are about
--   insertion against that map, Match, Fits and Outcomes about lookup, RoundTrip and Listing about the
--   array form and the list of variants.
-- Control: src/builtins/sli_control.cpp over the record `Interp`, in Loops, Unwind and Choices, one
--   function for each operator; Shapes lists the frames of the loops slot by slot, and Stops,
--   Returns, Framed, Frames and Marks are about the operators.
-- Interpreter: `execute_dispatch_` of src/interpreter/sli_interpreter.cpp, in Dispatch and Exhausted: a
--   step function on the labels of the code and `Reach`, the steps in a row. Bodies, Procedure, Repeat,
--   Counts and For are about procedures and loops, from the operator of Control to the end. The
--   functions behind function tokens, the lookup of names and `raiseerror` are the fields of
--   `Services`; tries are those of Trie.
-- Math: src/builtins/sli_math.cpp with sli_op_bodies.h, in Operators, over `Interp`; the arithmetic of
--   doubles is the record `Doubles`. Integers and Bounds are about the range of a `long`. Comparisons has
--   gt, lt, geq, leq and the logical operators, on bits too, and Orders the order of strings.
-- Serialize: src/serialize/sli_serialize.cpp and sli_serialize.h. Codec is the writer and the reader,
--   Tokens the form of tokens and stacks, with the names of Names; Words and RoundTrip are about both.
--
-- The scanner's loop is a recursion on the input, which it leaves when the input is at its end. The
-- parser's loop has fuel for two rounds for each byte of the input and two more, which Parser.Total
-- shows to be enough. The loop of `return` has fuel for one round for each slot of the execution stack
-- and one more; a round goes down by a frame. The dispatcher may run for ever, and has no fuel: what it
-- comes to is stated with `Reach`.
--
-- Not modelled: reference counts and the release of memory, the text of error messages, I/O errors of
-- the stream, the value of a double (its text is kept, where the source calls `std::atof`), signals
-- and the counting of calls in the dispatcher, what `raiseerror` does to the stacks and the error
-- dictionary (an operator that calls it ends with the error and the state at the call), the error
-- handler, the operators on arrays, strings and dictionaries but for the branch of `put` on
-- dictionaries, eq and neq, the functions of doubles, the form of objects in the serializer and the
-- tables by which they are shared, the graphics, regular expressions and terminal.
pub mod Prelude
pub mod Scanner
pub mod Parser
pub mod Dict
pub mod Stack
pub mod Names
pub mod Trie
pub mod Math
pub mod Control
pub mod Interpreter
pub mod Serialize
