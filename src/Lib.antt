-- ===== src/Lib.antt =====
-- A model of RBase, the base library of a small rover: a registry of typed entries that several
-- processes share over connections.
--
-- Parts and files. Paths are those of the repository.
--   Entries, Value: RRegistry/include/RRegistry/Entries.hpp and TypeConverter.hpp. The enumerations of
--     entries with their numbers, the counts of each type, and the values of all types as one tagged
--     type. Floating-point values are bit patterns, compared as IEEE 754 has it.
--   Detail: RRegistry/include/RRegistry/Detail.hpp. The tables of entries (Detail/Tables), the lookup
--     of names and descriptions (Detail/Names: GetValueOfName, GetNameOfEntryClass and so on), and the
--     continuous numbering of all entries (Detail/Continuous: GetFullEntryCount,
--     GetTypeFromContinousNumber, NormalizeContinousNumber, GetContinuousNumberFromPropertyType).
--   SubscriptionMap: RRegistry/include/RRegistry/SubscriptionMap.hpp. One vector for each type. The
--     value arrays of the registry are kept in the same form.
--   Dropper: RComm/include/RComm/LiteCommDropper.hpp. Which update messages are dropped.
--   Reliability: RComm/include/RComm/LiteCommReliability.hpp.
--   Adapter, Receive: RComm/include/RComm/LiteCommAdapter.hpp. One end of a connection: what it sends
--     (Adapter: set, subscribe, unsubscribe, request), and its callback for received messages (Receive),
--     which changes the registry and, through it, the other adapters.
--   Registry: RRegistry/include/RRegistry/Registry.hpp. `set` stores a value that differs from the old
--     one, tells every registered adapter of it and calls every receiver.
--   Persistency: RRegistry/include/RRegistry/PersistencyPolicy.hpp, an interface. Persistency/Database:
--     RRegistry/include/RRegistry/DBPersistencyPolicy.hpp and RRegistry/src/DBPersistencyPolicy.cpp, the
--     policy with a record queue and a worker thread. Persistency/Statements: what the worker asks of SQLite,
--     and, over a whole run of the two threads, Persistency/Statements/Sessions.
--   Support: RSupport/include/RSupport/RSupport.hpp and RSupport/src/RSupport.cpp, the C interface of a
--     handle with a registry and one adapter (Support/Handle), over the socket of
--     RSupport/src/SocketClientAdapter.cpp (Support/Client).
--   Link: two registries, and the two ends of one connection between them: what is set on one side, and
--     what becomes of it on the other.
--   Console: RSupport/src/ConsoleAdapter.cpp and RSupport/include/RSupport/ConsoleAdapter.hpp, a
--     connection whose packets are lines of base64 on the console or for callbacks.
--   Logging: RUtil/src/Logging.cpp and RUtil/include/RUtil/Logging.hpp, the set-up of boost.log.
--   RCore: what is used of the submodule RCore.
--   Sample: a small registry with two connections, for the examples.
--   Base: operators, lists, integers, outcomes and association lists for all of these.
--
-- How the state is kept. A World is one registry with all that it refers to: adapters and receivers are
-- known by numbers, so that the weak pointers of the registry, which may have expired, are numbers that
-- are looked up. `updates` and `calls` record the calls of receivers and of message callbacks in order.
-- A receiver is taken not to change the registry while it is called.
-- Fallible code returns an Outcome, whose faults are an access out of bounds, a null registry, a failed
-- assertion, an object that is gone or was never
-- constructed, std::terminate and a std::system_error; the C++ program has undefined behaviour or aborts there.
--
-- Bounds and fuel. Entry numbers, sequence numbers and adapter ids keep the width and the conversions
-- that the C++ code gives them. The one loop on fuel is the search of
-- GetContinuousNumberFromPropertyType; with fuel for the number of all entries it finds each entry.
--
-- Threads. The worker of DBPersistencyPolicy and its client are steps of a relation (Threads). Its one
-- client calls push, enable and disable one after the other; a step that needs the mutex waits for it.
--
-- A connection that loses nothing (Link) is the hypothesis `Wire`: each send appends one message to
-- those that arrive at the other end, in order, and a decoded value is the one that was encoded. The base64
-- iterators of boost (Console) are a parameter with the laws `IsBase64`: the number of digits, that no digit
-- is '=' or ends a line, and that decoding gives the bytes back, with zeros for digits 'A' behind them.
--
-- Not in the model. What SQLite does with the calls of DBPersistencyPolicy, and what
-- boost.log does beside writing a record to the sinks of init. The time that rsupport_handle_service sleeps
-- is given as the frequency and the duration that it is computed from in floating point. The transmit
-- buffer, the decoding of bytes and the numbers of message types belong to RCore, whose code is not in
-- the repository: they are the parameter `RCore`, with the two laws that a decoded value has the type
-- asked for, and that the numbers of message types lie below their count. The methods of a persistency policy, behind the
-- interface, are taken to return; DBPersistencyPolicy::push does so for every entry in bounds but the
-- string, for which it uses a std::string that was never constructed. What the operating system
-- answers to the socket is an argument of each operation. Two threads that use one registry at a time
-- are not modelled, since the code does not lock it.
pub mod Base
pub mod Entries
pub mod Value
pub mod Detail
pub mod SubscriptionMap
pub mod Dropper
pub mod Reliability
pub mod RCore
pub mod Persistency
pub mod Adapter
pub mod Registry
pub mod Receive
pub mod Link
pub mod Console
pub mod Logging
pub mod Support
pub mod Sample
