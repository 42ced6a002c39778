-- ===== src/Lib.antt =====
-- Models of the programs of this repository, and the theorems on them.
--
-- The repository holds the tools for a small 32-bit instruction set, qrisc, and a compiler for a
-- small language, Mercy. An assembler (asm/src) reads text, keeps instructions, labels and the
-- uses of labels, and patches the uses when the text ends. An interpreter (asm/src/qrisc-sim.cpp)
-- copies the instructions to its memory and runs them; it draws with a library (life_game/sim). A
-- second simulator (asm/src/qrisc-llvm-sim.cpp) compiles them with LLVM and runs the result. The
-- game of life in C (life_game/src) draws with the same library, and a generator (irgen) writes
-- the same program as a module of LLVM; a pass of LLVM (trace) makes a program dump what it executes.
-- The front end of the compiler
-- (mercy/src) has types that are compared by address, a syntax tree, and a semantic analysis that
-- instantiates each function for the types of its arguments; its back end makes code with LLVM.
--
-- - Base: lists, words of 32 bits and bits, and the names that all files share.
-- - Instr: asm/src/Instr.h. `make_r_instr` and `make_i_instr` are `makeRInstr` and `makeIInstr`;
--   a failed assert is `none`. `Opcodes` has the tables of types and mnemonics, `Print` has
--   `Instr::print`, the other children have the lemmas on encoding and decoding.
-- - Asm: asm/src/Assembler.cpp, one function for each method, with the state passed along and
--   every exit a value of `AsmError`. `Asm.Parser` has the grammar of asm/src/parser.y over the
--   tokens, `Invariant`, `Finalize`, `Refinalize` and `Layout` the proofs.
-- - Sim: asm/src/qrisc-sim.cpp. `State` is the machine, `Device` has `handleLoad` and
--   `handleStore`, `Exec` the `switch`, `Run` the loop and the loading of the program. Drawing
--   and writing are events in the order in which they happen; `sim_rand` is that of
--   life_game/sim/sim.cpp. A trap, a failed assert, an access outside of the memory and a
--   division by zero are values of `Stop`.
-- - Mercy.Types: mercy/src/Type.h and Type.cpp, with the stores of array and function types.
-- - Mercy.Ast: mercy/src/AST.h, and the printing of mercy/src/AST.cpp.
-- - Mercy.Sema: mercy/src/Sema.h and Sema.cpp, with the constant values of GenericValue.h. The
--   chain of scopes is a list, the state of `Sema` is passed along, a message is a value of
--   `SemaError`, and a null pointer that is followed, a failed assert and the like are values of
--   `Fault`.
-- - Mercy.Codegen: mercy/src/Codegen.cpp, the code of expressions, of functions and of a file, over
--   the tree with what the analysis has written into it. LLVM's builder is a parameter, the
--   record `Llvm`; `Documented` has the types of its instructions as hypotheses. `Typing`,
--   `Table`, `Typed`, `FunctionTyping`, `Addresses`, `Bodies` and `Instances` are on the types of
--   what is emitted.
-- - Life: life_game/src/life.c, the functions by their names; what is drawn are events of
--   `Sim.State`. `main` is given the number of rounds, since its loop never ends.
-- - Jit: asm/src/qrisc-llvm-sim.cpp. `Devices` has `handleStore` and `handleLoad`, `Emit` the
--   tests on the opcode, `Compile` the two passes of `simulate`. LLVM's `IRBuilder` is a
--   parameter, the record `Builder`; `Semantics` is what its documentation says of straight-line
--   code, as hypotheses. An exit, a failed assert and a null block are values of `Refusal`.
--   `Blocks`, `Support`, `Translated` and `Accepts` are on what is compiled, `Straight`, `Steps`,
--   `Program` and `Whole` on what the code does.
-- - Irgen: irgen/main.cpp, which writes the game of life as a module of LLVM. `Record` has the calls
--   of `IRBuilder` and `Module`, recorded as they are made, `Functions` and `Generator` have the
--   functions of the source, and `generated` is the module that they build. `Semantics` is what
--   LLVM's documentation says of the recorded instructions, as hypotheses on a step function.
--   `Blocks` and `Loops` are on the loops that the functions share, `Generated` writes out the
--   blocks of the module, `Counting`, `Updating`, `Initialising` and `Drawing` follow their
--   instructions, `Calls` and `Program` put the runs together.
-- - Trace: trace/TraceGenPass.cpp, the pass that makes a function dump what it executes. `Pass` has
--   its loops; an instruction carries its address and what LLVM prints for it, and the end of a
--   block that is dereferenced is `none`. `Lines` and `Exits` follow the inserted calls, `Traced`
--   and `Whole` say in one walk what comes out.
--
-- Words are numbers below 2 ^ 32, with the wrap-around written out. The loop of the interpreter
-- need not end, so it takes fuel, one unit for a round, and says when it has run out. Function
-- instances can need further instances without end, so the analysis takes as fuel the depth of
-- instances inside instances, and says when it has run out. No amount is built in: fuel is an
-- argument, and more of it follows the same program further.
--
-- Not modelled: the lexers, the generated parsers, files and command lines; the verification and
-- the running of the compiled module, which are LLVM's; the script that counts a trace
-- (trace/analyze.pl); the text of the messages of the analysis, with the lines of the nodes and the
-- cloning of nodes, which would keep all that is modelled of them.
pub mod Base
pub mod Instr
pub mod Asm
pub mod Sim
pub mod Mercy
pub mod Life
pub mod Jit
pub mod Irgen
pub mod Trace
