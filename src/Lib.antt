-- ===== src/Lib.antt =====
-- vimgdb: a bridge between vim and gdb, which shows the state of a debugged program in windows of
-- vim. It reads commands of the user from vim (gui/vim), splits them into arguments (common),
-- turns them into commands of gdb's machine interface (user_cmd, gdb) and prints what gdb answers
-- into windows.
--
-- Base: names of the library that all modules share; tests on numbers (Base/Tests), lists over
-- the native numbers (Base/Lists), `std::map` as an association list (Base/Maps).
--
-- Common: common/ of the repository. Text holds what the functions on C strings share: a string
-- is the list of its bytes without the terminator, which `char_at` reads at its end. Escape
-- models `strescape` and `strdeescape` of common/string.cc, the latter as a loop over a buffer
-- that is read and written at two positions; Split models `strsplit` with its two passes, the
-- first of which sizes the array that the second one fills (a write behind the array is a result
-- of its own); LineMap models class `line_map` of common/linemap.cc, Dynarray the growing output
-- buffer of common/dynarray.cc, Page the text of a window with the number of its next line, Opt
-- the options of common/opt.cc, Linked the macros of include/common/list.h over the links of all
-- nodes, with `list_for_each` over a body that may delete the node it is at, Swap `strswap2` of
-- common/string.cc, and Itoa its `itoa` with the `strlen` of a number.
--
-- Gui: gui/vim/vimui.cc. The state is the record `Vim` (Gui/Vim/State) with the two maps of
-- windows, the counters and the messages sent so far; an operation is a function of the state
-- that returns its result and the new state, or nothing where the code reads through a null
-- pointer. Gui/Vim holds the monad, `action` (as `command` and `call`) and `atomic`; Windows,
-- Notes and Events hold the other operations. What vim answers is a parameter, a function of the
-- sequence number. Reach is the step relation over all public operations. The buffers that the
-- maps point to are shared in the code: a write through a pointer is a write of the entry under
-- the buffer's id.
--
-- Gui/Interface is class `gui` as the commands see it, a record of operations; Gui/Vim/Interface
-- fills it with class `vimui`.
--
-- Gdb: the commands for breakpoints as the command `Break` issues them (gdb/breakpoint.cc), over
-- a record of what gdb answers; and gdb/gdb.cc. Issue is the line that `mi_issue_cmd` writes for
-- a format and its arguments, Handshake its wait for the response against `mi_proc_result`, with
-- the steps of the two threads in any order and waits that return without a signal, Reader the
-- loop of `readline_thread` that cuts what gdb writes into texts for the parser, and Events the
-- queue between `mi_proc_async` and `event_thread` with all that is done for an event. Variables
-- is the update of a variable of gdb/variable.cc and how it is printed with its children, which
-- are a tree; Registry holds the variables as objects by their pointers, with the maps that name
-- them, and the operations that create, share, change and delete them.
--
-- Command: user_cmd/break.cc, user_cmd/memory.cc with gdb/memory.cc, and user_cmd/per.cc. For
-- `Break` the state of a session is the registry of breakpoints, gdb, the user interface and the
-- files written; `cmd_break_exec` is composed of one function per sub-command.
-- Command/Break/Table holds the registry against the table of gdb, Screen the calls of the user
-- interface, Agrees the runs. A breakpoint that gdb removes by itself, as it does with temporary
-- ones, is outside the model. Command/Memory is the dump of a segment with its lines (Paged) and
-- its buffer for characters (Roomy), and Command/Memory/Hex the values that are written; in
-- Command/Memory/View the state is the list of segments, each with its pointer as a number, the
-- line map, gdb and the user interface. Addresses lie below 2^63, alignments are powers of two.
--
-- Command/Per holds the classes of user_cmd/pertypes.cc as the actions of user_cmd/per.y build
-- them; Print the loops of `cmd_per_update` over a range, Check the checks of a file, View the
-- window over all ranges, which come with their pointers as numbers, Exec the command with all
-- its sub-commands. The parser and the formats of `printf` and `strtoll` are parameters.
-- Base/Bits holds C's operators on the bits of a word. A shift by 32 bits or more, and a read
-- outside of a memory, end a run with nothing.
--
-- Fuel: `strdeescape` and both passes of `strsplit` are given one round more than the line has
-- bytes, and each round takes at least one byte. The output buffer of `win_vprint`, and the one
-- of `dynarray::add`, double at most 31 times before they pass 31 bits. The loop of
-- `mi_issue_cmd` over its format is given one round more than the format has characters, a loop
-- over linked nodes one round for each. The destructor of a variable is given one level for each
-- object, the length of a number 65 rounds, of which base 10 and 16 take at most 22.
--
-- Not modelled: locks and threads, but for the steps of Gdb/Handshake (elsewhere an operation is
-- one step of the thread that holds the lock), failing allocations, sockets, generated parsers,
-- and the parts of gdb/ and user_cmd/ that are not named above.
pub mod Base
pub mod Common
pub mod Gui
pub mod Gdb
pub mod Command
mod Tests
