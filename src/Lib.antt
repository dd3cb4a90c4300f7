-- ===== src/Lib.antt =====
-- Verification of jhcommon, a C++ library of containers, timers and event queues.
--
-- The parts, and the files that model them:
--
-- CircularBuffer.antt and the files of CircularBuffer/ are src/CircularBuffer.cpp, the byte
-- ring between a reader and a writer. The state is a record of the storage, the two pointers
-- as offsets and the fields of the length; each method is a function on it, with the copies
-- and the advances of the pointers as the code makes them. Refine gives the ring as a bounded
-- queue of bytes; Lines is peekLine and getLine, Fill is fillFromFile with the answer of the
-- read as an argument, Access is copy, getBytes and byteAt.
--
-- Timer.antt and Timer/ are src/Timer.cpp: the list of pending timers, sorted by tick, the
-- additions, the removals, and handleTick, which fires what is due. Ticks and milliseconds are
-- taken modulo 2^32, as the code has them. Event.antt has the fields of include/Event.h that
-- the timers and the queues read. A timer gives its events to a dispatcher: what it is given
-- is the list that handleTick returns. Clock is one wake-up of the clock thread, over
-- TimeUtils.antt, which is include/TimeUtils.h; the times that the system gives are arguments.
--
-- EventQueue.antt and EventQueue/ are src/EventQueue.cpp, the queue of a dispatcher: sends by
-- priority, polls, removals and the wait, with the reference counts of include/RefCount.h.
--
-- Uri.antt and Uri/ are src/URI.cpp: the parts of a URI, its parser and its builder, the query
-- parameters, and the two flags that say which of the strings are stale.
--
-- TimerManager.antt and TimerManager/ are src/TimerManager.cpp: the default timer and the
-- registered timers, in a store by address.
--
-- Dispatcher.antt and Dispatcher/ are src/EventDispatcher.cpp over the queue and the timers,
-- and the loop of src/EventThread.cpp: Lookup is the walk over the listeners, Removal the walk
-- while they remove listeners, Main the loop. Three things are parameters: what listeners a
-- listener adds and removes while it is called; what else it does to the dispatcher, and what
-- the delivery of an agent does, since include/EventAgentT.h is not modelled; and what other
-- threads do between two turns of the loop.
--
-- Selector.antt and Selector/ are src/Selector.cpp: the listeners for files, the list for
-- `poll` in Fds, the calls of the listeners in Calls, and in Thread the state with its pipe
-- and one turn of the loop, with a turn for the pipe alone in Thread/Progress. What `poll`
-- answers, the bits of its events, and the calls that a listener or an agent makes on the
-- selector are parameters.
--
-- Http.antt and Http/ are src/HttpHeaderBase.cpp and src/HttpHeader.cpp over the ring: the
-- search for a line and its parse, the fields, their names, the text of a header; Message has
-- the loop of src/HttpAgent.cpp over the lines of a response, and Response and Request the
-- first lines of src/HttpResponse.cpp and src/HttpRequest.cpp, the latter over the model of
-- URI, with `strtol`, `snprintf` and `sscanf` as parameters.
--
-- Vector.antt and Vector/ are include/jh_vector.h, the growing array of the library, as slots
-- that have an object or none; Grow has its loops, Refine the list that it holds, Resize
-- `resize`, Assign the assignment and the copy, Sequence the calls on a sequence, and Contract
-- their runs.
--
-- LinkedList.antt and LinkedList/ are include/jh_list.h: nodes on a heap, linked both ways
-- between two placeholders, with NULL as 0 and the addresses that `jh_new` returns as
-- arguments. Links says when a heap holds a list of values; Splice and Place are what a link
-- or an unlink of a node does to that, Insert and Erase the writes of the operations, Refine
-- the operations as those of a sequence, Loops the loops of `size` and `clear`, and Destroy
-- the destructor.
--
-- Listeners.antt and Listeners/ are include/ListenerContainer.h, listeners in such a list.
--
-- Regex.antt and Regex/ are src/Regex.cpp and include/Regex.h: the elements of the tree in a
-- list, with indices for pointers; Prepare is `prepare`, a function for each case of its
-- switches, on the state of Prep, and Range its errors and the loop of a range; Match is
-- `parse` with the walk over the tree, the repetitions and the way back, and Groups the
-- groups; Dump is `dumpTree`. The characters are bytes in the order of a signed `char`. Tree
-- and Growth have the links of the tree, Prepare/Cases and Prepare/Sound what `prepare` keeps
-- of them, with Descent and Braces for its cases, and Match/Terminal, Greedy, Rounds, Taking
-- and Process what one element takes of the string, and Ranges the ranges by the values of
-- signed characters; Prepare/Plain, Prepare/Literals, Match/Ahead, Match/Literal and
-- Match/Prefix are about expressions without special characters. The tests are the cases of
-- test/regexTest.cpp.
--
-- Path.antt and Path/ are src/Path.cpp over `split` of include/jh_string.h, for a `size_t` as
-- wide as `unsigned` and for a wider one: Split is about the loop of `split`, Normal is
-- `normalize`, Names the parent and the file names, System the calls on the file system, which
-- is a parameter with an interface of its own, and Mkdirs the directories that `mkdirs` makes.
--
-- Prelude.antt and Prelude/ have what the files share: tests on numbers, lists, signed
-- integers and the searches of std::string, on the native numbers.
--
-- A method holds the lock of its object, so it is one step of the model; a wait on a condition
-- gives the other threads their calls in between, as a list. An abort, an exception or a read
-- through NULL is `none` or a constructor of a result type. A loop that is not structural
-- takes fuel: the scan of peekLine a round for each byte held, handleTick a round for each
-- time that a pending timer can fire, the query loop a round for each byte of the query, and
-- those of split a round for each byte of the path, the clock a round for each millisecond it
-- is behind, the walk over listeners a round for each and one more while they only remove
-- listeners, callListeners likewise, a word of a request line a round for each byte that fits
-- into it, the loop over header lines a round for each line, `size` and the destructor of a
-- list a round for each node and three more, `clear` and the loops over listeners one more
-- than the nodes. `prepare` takes a round for each character, the walk along the siblings one
-- for each element, a range and the repetitions of an element one for each character of the
-- string and two more, and the way back one for each position before it. The walk over the
-- tree in `parse` takes the fuel that it is given.
--
-- Not modelled: the copy of a list, the termination of the walk of `parse` over the tree as a
-- whole, the waits of CircularBuffer and
-- of the clock thread, a callback that adds timers while a tick runs, a listener that
-- dispatches an event while it is called, the port of a URI, and the connection and the body
-- of HTTP. Of the library, Socket, File, Thread, Mutex and Condition, the allocator and the
-- logging wrap system calls and have no logic to prove; EventAgent is a template of glue over
-- Event for each number of arguments; the component manager loads shared objects; AppArgs is
-- `getopt_long_only` with a table; and jhidl is a tool of its own with a generated parser.
pub mod Prelude
pub mod CircularBuffer
pub mod Event
pub mod Timer
pub mod Uri
pub mod Vector
pub mod TimerManager
pub mod Http
pub mod Path
pub mod EventQueue
pub mod Dispatcher
pub mod Selector
pub mod TimeUtils
pub mod LinkedList
pub mod Regex
pub mod Listeners
