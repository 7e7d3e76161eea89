-- ===== src/Lib.antt =====
-- Irid: the tools of the Irid 16-bit computer. `lc` compiles the Leaf language to assembly, `as` assembles
-- it into object files (the format of include/irid/iof.h), `ld` links those into a flat image, and `emul`
-- runs it. This library models the linker, the assembler, the compiler and the processor of the
-- emulator.
--
-- Which file models which part (paths from the root of the repository):
-- - Ld/Store, Ld/Region: the chain of `struct ld_region` (ld/src/region.c), on a store from addresses to
--   regions; address 0 is NULL, and `region_new` takes the next fresh address, as calloc never fails here.
--   Ld/Region/Block, Chain and Insert describe chains and run the insertion on them; Refines and Tiles have
--   what comes of it.
-- - Ld/Section, Ld/Object: reading and looking up in object files (ld/src/section.c, ld/src/object.c). A file
--   is its bytes; a read past its end, which the code does not check, is a fault.
-- - Ld/Linker, Ld/Output: placement, symbols and link points, and the image (ld/src/link.c). Sections are
--   indices into the list of entries, so that a region names its section as the code's pointer does.
-- - Lc/Stop: why the compiler stops: a fault, `die`, an error, or a loop of the model that is out of fuel.
-- - Lc/Preproc: comments and tabs (lc/src/preproc.c). Lc/Tokens: the tokenizer (lc/src/tok.c).
-- - Lc/Parser: the parser (lc/src/parser.c, lc/src/node.c) on an index into the tokens, its functions in Nodes,
--   Expression, Statements and Declarations. A node has its children in it; the parser's calls of itself are
--   arguments of the pieces of a function. Lc/Parser/Shape says which trees there are; Runs has what every
--   function ensures of the cursor and of its node; Steps, Precedence and Source are about known tokens.
-- - Lc/Types: the register of types (lc/src/type.c), on indices instead of pointers.
-- - Lc/Compiler: from nodes to blocks (lc/src/compiler.c, comp-*.c): Values and Calls for expressions, Assign and
--   Statements, and Functions for functions and the file. A variable has the number of its block in it, as the
--   code's pointer tells it from others. Keeps and Frame are about the frame of a function.
-- - Lc/Emit: values and what calculates them (lc/src/emit.c); Lc/Emit/Blocks: the blocks of a function and the
--   file. A line of output is data, not text. Lc/Emit/Run runs lines on the processor of Emul/Cpu;
--   Meaning, Computes, Sides and Expression show what expressions calculate, Slots where variables stand.
-- - Emul/Cpu: the processor's state, and the instructions on whole registers that the compiler's lines are run
--   with. Emul/Registers, Instructions: registers and their halves, and every other instruction; Decode: the
--   bytes of instructions; Devices: interrupts and the calls of the processor; Machine: the main loop
--   (emul/src/cpu.cc, emul/src/memory.cc, emul/src/emul.h). What a device does is a parameter. Stack, Halves,
--   Calls, Interrupts and Fetch are about these.
-- - As/Text, Numbers, Symbols: lines and what is in them; As/State: what is inserted and linked;
--   As/Instructions, As/Assembler: the methods for instructions and directives, and the loop over the lines
--   (as/src/assembler.cc). Reading a file is a parameter. As/Meaning says which instruction a line names, and
--   As/Encoding that it is the one that the processor reads; Links, Labels and Files are about linking in
--   place, labels, and files of values; As/Object is the object file, and Loaded what the linker finds in it.
-- - Tools/Contents: the byte buffer of libiridtools, as the bytes in it; Writes: what is in it after a write.
--   Tools/Bytebuffer: the buffer with its allocation, whose sizes are taken to stay below 2 ^ 64.
--   Tools/Builder: the builders of object files, and what is read in what they build.
-- - Tests: runs on small inputs.
--
-- Fuel and bounds. The walks along a chain of regions get as much fuel as the store has addresses given
-- out; placing the movable sections gets one round more than there are entries; the tokenizer gets one
-- round more than the source has bytes, as every round takes a byte; the parser's loops, blocks and
-- expressions get as much as there are tokens, since each call starts at a later one; the compiler from
-- nodes to blocks gets fuel for the depth of a node; `type_size` gets fuel for the depth of its calls,
-- and a type calls for types registered before it; the assembler gets fuel for files of values that name
-- other files. Values of u16 and u8 are taken modulo 2 ^ 16 and 2 ^ 8, a C int modulo 2 ^ 32, a size_t in
-- the assembler modulo 2 ^ 64.
--
-- Not modelled: the allocator of the compiler and its warnings, the clock, the terminal and the serial
-- line of the emulator, registers whose number leads out of the structure of registers, the command
-- lines, dumps and messages, and how the compiler renders its lines as text: a line is taken to do what
-- the emulator's instruction of its name does, with operands as the assembler encodes them.
pub mod Base
pub mod As
pub mod Tools
pub mod Emul
pub mod Ld
pub mod Lc
mod Tests
