-- ===== src/Lib.antt =====
-- janet-sdbus: D-Bus for Janet, C code over libsystemd's sd-bus.
--
-- The program has these parts. A connection (src/bus.c) carries messages (src/message.c), which Janet
-- code fills by `sdbus/message-append`: a scanner of D-Bus signatures finds the extent of each type,
-- conversions (src/unwrap.c) turn Janet values into C values, and a writer makes the calls of sd-bus
-- that put them into the message. Asynchronous calls and subscriptions (src/call.c) wait in a queue
-- of the connection (src/async.c) until a reply, a cancellation or the end of the connection.
--
-- What models what:
--   Base         shared names: runs of C code that may panic (a longjmp) or fault, lists, numbers
--   Signature    `is_basic_type`, `match`, `find_subtype`, `span_next_type` of src/message.c; the
--                grammar of complete types is Signature/Types
--   Platform     the parameters: janet.h, sd-bus.h and the casts of the C compiler
--   Unwrap       src/unwrap.c, with the error context in Unwrap/Context, and `check_sd_bus_return` of
--                src/main.c
--   Append       `append_data` and all below it in src/message.c; what a value means under a type is
--                Append/Encoding; Append/Arguments holds the theorems on all arguments, and Append/Typed
--                and Append/Exact the converse, by a postcondition for runs that return
--   Reader       `read_complete_type` and all below it in src/message.c, and `sdbus/message-read`; a
--                message's values as trees, and what they are shown as, are Reader/Wires, and what sd-bus
--                promises of its cursor is Reader/Cursor
--   RoundTrip    the writer and the reader together: which values calls put into a message
--   Pending      `queue_pending` and `dequeue_pending` of src/async.c on a heap of `AsyncPending`
--   Calls        src/call.c, and `create_async_pending` and `closeall_pending` of src/async.c, on that
--                queue and a log of what the channels are given
--   Dispatch     a connection whose bus runs the handlers of src/call.c: Events at such a bus, and
--                `sdbus/call-async`, which calls `settimeout`
--   Listeners    `timer_callback` and `bus_callback` of src/async.c, which the event loop calls
--   Connection   src/bus.c, and `janet_poll` and `init_async` of src/async.c
--   Slots        src/slot.c
--   Messages     the constructors, the getters and the other functions of src/message.c on a message's
--                pointer
--   Handles      a pointer to an object of libsystemd that loses its reference, for Slots and Messages
--   Events       `process_bus`, `getevents`, `setevents` and `settimeout` of src/async.c, over any
--                `sd_bus_process`
--   Export       src/export.c: `sd_bus_flags` and `create_vtable`, with what a member should become in
--                Export/Described, and that nothing else is built in Export/Checked, the handlers of
--                methods and properties in Export/Handlers, and `sdbus/export` in Export/Registration
--   Examples     a stand-in for the platform, runs, and the theorems applied to concrete input
--
-- A state is passed explicitly. The writer's holds the message, the error context and the blocks of
-- `janet_scalloc` that were freed, as the error context keeps pointers into them and a read of a
-- freed block is a fault. Functions of the source keep their names; a loop is a function of its own.
-- `append_complete_type` recurses on fuel, one unit for each level of nesting: the theorems give it
-- the nesting depth of the encoded values, and hold for that fuel. For a signature without a variant the
-- length of its text is enough, and without a dictionary no freed block is read (Append/Finishing);
-- more fuel changes no outcome (Append/Fuel). A variant names the type of its value at run time, so no
-- depth is enough for all values: it is sd-bus that bounds the containers.
--
-- The reader recurses on fuel for nesting and for the turns of its loops; the size of the values that
-- are read is enough. `closeall_pending` runs on fuel too, one unit more than the queue has nodes, and
-- `process_bus` one unit for each message that is processed in a row, with two more for the turn and
-- for the call of sd-bus that finds nothing.
--
-- The life of a connection is told in three relations: Calls/Life for its calls and subscriptions,
-- Connection/Life for its bus, and the uses of a slot in Slots. In Calls/Life a slot is released while
-- its node is queued, or right after the answer, as a floating slot is that Janet does not hold, or
-- stays held; Pending/Stale shows what a later release does to the queue. The state tells which channels
-- are closed, to which a gift panics, and which slots the garbage collector has taken.
--
-- Not modelled: how Janet arguments are taken from `argv` (`janet_getabstract` and its like), the
-- tables of methods and functions that janet.h is given, and failed allocations, which end the process.
-- What a C function does with a Janet value of the wrong type that it reads as a text or calls as a
-- function is a fault. The round trip leaves file descriptors out, since sd-bus duplicates them.
-- The event callbacks have `process_bus` as an argument, which Dispatch has with the handlers that it
-- runs.
-- Janet's garbage collector, the message library with its reference counts, and the kernel are outside
-- the repository.
pub mod Append
pub mod Base
pub mod Calls
pub mod Connection
pub mod Dispatch
pub mod Events
pub mod Examples
pub mod Export
pub mod Handles
pub mod Listeners
pub mod Messages
pub mod Pending
pub mod Platform
pub mod Reader
pub mod RoundTrip
pub mod Signature
pub mod Slots
pub mod Unwrap
