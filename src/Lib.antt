-- ===== src/Lib.antt =====
-- The C runtime of Kali Scheme.
--
-- The virtual machine asks the runtime for events (c/unix/event.c), and does its input and output
-- on descriptors (c/unix/fd-io.c) and on stdio streams (c/unix/io.c). An operation on a descriptor
-- that is not ready puts the descriptor into the table of ports of c/unix/event.c, where polls
-- find out that it has become ready, and `get_next_event` reports it.
--
-- The heap (c/scheme48heap.c) is a memory with two semispaces. A collection exchanges them, copies
-- what the roots refer to, and traces what was copied until nothing is left to copy. An image is
-- written by such a collection, with a header of text and the cells as they are, and put back into
-- a heap by reading the header, correcting the order of bytes and moving the addresses.
--
-- Event.Queue: the queues of ports. The `next` of a struct and the `first` of a queue are cells
--   of one store of links, which `rmque`, `addque` and `findrm` write as the source does.
-- Event.State, Event.Ports: the static variables, and `add_fd`, `add_pending_fd`, `remove_fd` and
--   `next_ready_port`. What `malloc` returns is an argument; a read of a freed struct is `none`.
-- Event.Poll: `queue_ready_ports`. `select` is an argument.
-- Event.Clock: the signal handlers and `schedule_alarm_interrupt`.
-- Event.Next: `get_next_event` and `wait_for_event`.
-- Io.Stdio: what c/unix/io.c uses of C's stdio: a stream is the list of what the device will
--   answer, with its error and end indicators and `errno`.
-- Io.Reader, Io.Writer, Io.Strings, Io.Block: the operations of c/unix/io.c on characters, integers,
--   strings and blocks.
-- Io.Open: the opening and closing of streams. `fopen` and `fclose` are arguments.
-- Fd: c/unix/fd-io.c. What the system calls answer is a list with an entry for each call.
-- Socket: c/unix/socket.c. The system calls are arguments.
-- FileName: `expand_file_name` of c/unix/misc.c. `getenv` and `getpwnam` are arguments.
-- Start: the arguments and checks of c/main.c. What `main` calls is a record of arguments.
-- Heap.Space: the semispaces of c/scheme48heap.c, with addresses as numbers.
-- Heap.Memory: the memory under the heap, a function from addresses to bytes. As in the source a
--   `long` has 4 bytes; the lowest one is first.
-- Heap.Copy: `real_copy_object`, `copy_weak_pointer` and `trace_value`.
-- Heap.Trace: `trace_locationsB`, `trace_stob_contentsB` and `clean_weak_pointers`.
-- Heap.Collect: `do_gc`, with the static areas and the finalizers. `ps_error` is a result.
-- Heap.Find: `find_all` and `find_all_records`.
-- Image.Header: `check_image_header`. The stream is one of Io.Stdio, and what is written on stderr
--   is a list of messages.
-- Image.Read, Image.Load: `read_image`, with the correction of the order of bytes and the move of
--   addresses.
-- Image.Write: `write_image`. Its writes are a list of operations that run while there is no error.
--
-- The virtual machine (c/scheme48vm.c) is generated from Scheme; its instructions are the cases of
-- one switch in `restart`, which go on at labels. The stack lies in the memory of the heap.
--
-- Vm.Pair, Vm.Lists: pairs and lists in the heap, and `okay_argument_list`.
-- Vm.Stack: `pop_args_GlistS`, `push_list`, `copy_listS` and `rest_list_setup`. Where the heap or the
--   stack has no room, the code goes on with a collection or moves the stack into the heap; there
--   the model ends with a result that says which of the two it is.
-- Vm.Setup: the parts and the whole of `rest_list_setup` on a machine whose stack lies behind its
--   heap.
-- Vm.Fixnum, Vm.Arith: fixnums and the instructions for arithmetic on them, as functions of the one
--   or two descriptors that they take. A function stands for each label on the way of an instruction
--   that computes something.
-- Vm.Raise: the registers, `push_continuationB`, `push_exception_continuationB`, and how such an
--   instruction goes on with its answer or raises an exception.
-- Vm.Dispatch: the switch on the opcode, for these instructions.
--
-- Fuel bounds the walks along a queue, and the loops that retry an interrupted call; the theorems
-- ask for more fuel than the queue has structs, or than the stream has answers to come, and then
-- the loops end before it. The recursion of `write_integer` has fuel for 20 digits, which is
-- enough for 64 bits. A `long` is an integer where overflow is undefined in C.
--
-- The loops of the heap and of the images over memory have fuel as well: for a round for each word
-- of an area in `trace_locations`, and otherwise as an argument.
--
-- The loops of the virtual machine have fuel where they follow links or search the stack: for a round
-- for each pair of a list, with one to spare, for twice the way round a circular list, and for the
-- words up to the next header on the stack. A loop with a count recurs on the count.
--
-- Not modelled: a signal handler that runs in the midst of a call, the clocks and the timer of the
-- system, dynamic loading, static areas of main.c, the extensions, and of the virtual machine all
-- but the parts above: its start, the move of the stack into the heap, the call of a handler, and the
-- instructions that are not arithmetic.
pub mod Prelude
pub mod Event
pub mod Io
pub mod Fd
pub mod FileName
pub mod Socket
pub mod Heap
pub mod Image
pub mod Start
pub mod Vm
