-- ===== src/Lib.antt =====
-- zrsocket, a network library in C++: the parts of it that compute.
--
-- Bytes that a connection receives go through a message decoder (FixedLengthMessageHandler,
-- LengthFieldMessageHandler), which cuts them into messages for the subclass's do_message and keeps
-- an unfinished one in a ByteBuffer. What a handler sends goes through the queues of its
-- MessageHandler to the socket. Between threads, events go through an event queue, and objects are
-- reused through a pool. DataConvert turns integers into text and back.
--
-- Base is the shared vocabulary: Boolean tests, lists measured by native numbers, blocks of memory
-- as functions from addresses (Cells), signed integers, uint_t arithmetic with its wrap-around.
--
-- DataConvert: src/data_convert.cpp, include/zrsocket/data_convert.h. Itoa has the printers (uitoa,
--   ulltoa, itoa, lltoa and digits10), Atoi the readers, each function under its name in the source;
--   a buffer is a block of cells and a text is read from it through its address. The digit tables are
--   the numbers that they tabulate. Itoa/Text and Itoa/Put say what is printed, Atoi/Numerals how
--   the loops read a numeral and Atoi/Results what each function returns for it; Atoi/RoundTrip joins
--   the two.
-- ByteBuffer: include/zrsocket/byte_buffer.h, class ByteBuffer; one function for each method, on a
--   record of its fields. Laws has the invariant and what write and read do, Steps every order of
--   calls, Holding the use that the decoders make of it. The allocator is a parameter that says
--   which sizes it has.
-- Framing: what is asked of a message decoder, independent of any decoder: the relation Feeds between
--   the bytes, the state of the subclass and the bytes left over.
-- Decoder/Common: include/zrsocket/message_common.h, the readers and writers of length fields.
-- Decoder/FixedLength: include/zrsocket/fixed_length_message_handler.h, and Decoder/LengthField:
--   include/zrsocket/length_field_message_handler.h. The handler is a record of its buffer, the
--   length it has read, whether it is closing, and the state of the subclass, which is a parameter
--   with its do_message. Refines relates the decoder to Framing, Pieces compares bytes that arrive
--   in two calls with the same bytes in one, LengthField/Reader is about the reader that update
--   chooses, LengthField/Total about any bytes. FixedLength/Loop has the loop of the first and what it
--   keeps.
-- MessageHandler: include/zrsocket/message_handler.h, the way out: send puts bytes into the standby
--   queue or on the socket, handle_write swaps the queues and sends from the active one. Queues has
--   the bytes that wait, Stream what a send does, Writes what handle_write does, Order runs of the
--   steps of all threads. What the socket answers is a parameter of each call. delete_handler is the
--   event loop's (include/zrsocket/epoll_event_loop.h), with the handle_close that it calls.
-- EventQueue: include/zrsocket/event_type_queue.h, the queues of events between threads. Slots has
--   windows of a circular array, Capacity the rounding to a power of two, DoubleBuffer the double
--   buffer, Ring the ring that keeps one slot free (SPSCNormalEventTypeQueue).
-- ObjectPool: include/zrsocket/object_pool.h, both pools. Counts has how often an object stands in a
--   list, Owners who has which object of the pool of chunks, Simple the same for the simple pool.
-- MemoryCopy: src/memory.cpp, include/zrsocket/memory.h. The macros MOD0 to MOD7 are data, and a case
--   of a switch is the row of macros it runs (CopyCases, ClearCases); Calls has memcpy and memclear,
--   Rows what a row covers, CopyLaws and ClearLaws what a row, a switch and the loop do, Whole what
--   the functions do. The loop runs on n + 1 rounds of fuel, since each round takes 256 from n.
-- TimerList: include/zrsocket/seda_timer_queue.h, class SedaTimerList, whose code TimerList of
--   include/zrsocket/timer.h repeats. The links of all timers are two functions on addresses. Chain,
--   Distinct and Model say what links stand for, Steps, Detach and Place where each operation puts
--   in or takes out a timer, Ops what it makes of the list, Refines every order of calls.
-- SedaTimer: src/seda_timer_queue.cpp and include/zrsocket/seda_timer.h, both timer queues of the
--   stages; the clock and the handlers are arguments. Lists has the two lists that share the links,
--   Insert and ByTime the place of a new timer, Arm and Cancel the calls on a timer, Due and Expire
--   the expiry, Lru the queue of equal intervals. The loop of expire runs on fuel; more of it than
--   there are active timers is enough, since each round takes a timer from them.
-- EventQueue/Concurrent: the queue of one producer and one consumer that run at the same time
--   (SPSCVolatileEventTypeQueue), as turns of the two threads in any order, each of
--   which sees all that came before.
-- EventLoopGroup: include/zrsocket/event_loop_group.h. Turns has the order in which loops are handed
--   out, Handlers which loop takes a handler.
-- EventLoopQueue: include/zrsocket/event_loop_queue.h over EventQueue.DoubleBuffer; the handler's
--   state and the test for QUIT_EVENT are arguments. The event loops call loop with the
--   capacity of the queue; the default is 10000 rounds.
--
-- Fuel: the loops of the decoders run on the length of the input plus one, since each round that
-- goes on has consumed a byte; `none` is the result of a loop without fuel.
--
-- Not modelled: sockets, threads and event loops (epoll, select, wepoll) but for delete_handler,
-- which are calls of the operating system; logging; HTTP; the branch of uitoa and ulltoa
-- for other systems than Windows, which does not compile (it names an undeclared variable).
pub mod Base
pub mod DataConvert
pub mod ByteBuffer
pub mod Framing
pub mod Decoder
pub mod MessageHandler
pub mod EventQueue
pub mod ObjectPool
pub mod MemoryCopy
pub mod TimerList
pub mod SedaTimer
pub mod EventLoopGroup
pub mod EventLoopQueue
