-- ===== src/Lib.antt =====
-- A model of moose_tools, a C++ library of small tools around Boost, and the theorems about it.
--
-- The program's parts and the files that model them (paths from the repository's root):
--   Error.hpp, Error.cpp         Errors         exceptions, their texts, the threads' last errors
--   Carne.hpp                    Carne          `Incarnated`: counters with a chain of parents
--   IdTaggedContainer.hpp        Container      the container, `Container/Iterator` its iterator
--   SOCKS4.hpp                   Socks4         the handshake's handlers; `Socks4/Request` the buffer
--   TimedConnect.hpp             TimedConnect   the coroutine of resolve and connect
--   test_socks4.cpp              TestSocks4     the program that connects and runs the handshake
--   String.cpp                   Endpoints      the texts of endpoints, over `Endpoints/Libraries`
--   String.cpp                   Mime           mime types of extensions, over `Mime/Libraries`
--   String.cpp                   Strings        truncate, itoa, mime_type_is_text
--   FilesystemHelpers, Homedir   Paths          path_contains_file, user_home
--   ThreadId.cpp                 ThreadId       a thread's number, and the generator seeded by it
--   Pimpled.hpp                  Pimpled        the owner of a private implementation
--   Random.cpp, IdTagged.hpp     Random         random numbers, uuids and ids over a generator `Prng`
--   AsioHelpers.hpp, .cpp        Streambuf      the input device with its limit
--   Log.hpp, Log.cpp             Logging        severities, lines of the log, the log file, the sinks
--   Mutexed.hpp                  Mutexed        the scoped locks and the incarnation
--   test                         UnitTests      the unit tests' cases, and when they pass
--   Boost.Asio as these use it   Asio           error codes, an open or closed socket, a timer
--
-- How the state corresponds to the code. A container is its `m_objects` and its incarnation;
-- `m_objects` is a `boost::multi_index_container`, which is not part of the repository: it is the
-- parameter `MultiIndex` of Container/Index, whose laws are the documented behaviour of its indices,
-- and `list_index` is an instance. A shared pointer to an object is the object, a null pointer
-- `none`. A call that throws returns `thrown`. 64-bit counters and indices wrap at 2 ^ 64.
-- The asynchronous operations are state machines: each handler returns the new state, what became of
-- socket and timer, and the operation that it starts or the code that it completes with
-- (`Action`). The environment, which answers operations and lets the timer run out, is a list of
-- events in Socks4/Run and TimedConnect/Run. The modules Stages and EndToEnd of both follow an operation
-- from answer to answer; Socks4/Proxy is a proxy by the protocol of SOCKS4, with any rule on which
-- requests it grants. MOOSE_ASSERT is the one of a debug build.
-- TestSocks4 runs both on one socket, each with its own timer; its main thread and the completion
-- handlers, which meet at a mutex and a condition variable, are a step relation (TestSocks4/Handover),
-- and where the program as a whole is looked at, one event lets the main thread go on.
-- What the library of program options has read is a parameter of TestSocks4/CommandLine.
-- Boost.Log's core is a list of sinks and whether it is enabled: by the library's documentation an
-- enabled core gives each record to each sink whose filter passes it, and a sink of a stream writes a
-- line (Logging/Sinks, Logging/Reader). The files are a function from paths to texts, and the file
-- sink's stream is open on one of them (Logging/Files). The texts of a record's number and time come with the record.
-- A `std::streamsize` is an integer of Prelude/Int; the streambuf is its bytes, and its `consume`
-- a parameter of the device. What a client sees of a container, up to order, is the quotient of
-- Container/Abstract, and what may still come after a completion is in Asio/Quiet.
-- Threads that count at the same time are an explicit interleaving (Carne/Threads); the last
-- errors are one list of calls of all threads.
-- The parsers of Boost.Spirit and the addresses of Boost.Asio are the parameters `Spirit` and
-- `Addresses`, which Endpoints/Plain shows to have an instance; the path library's operations are
-- parameters of `prepare_log_file` and `mime_extension_from_path`. The symbol tables of Boost.Spirit
-- are the parameter `Symbols`, with an instance in Mime/Plain, and the generator of Boost.Random is
-- the parameter `Prng`. A scoped lock is a variable, known by a number, and the calls of all threads
-- on one object are one list, in the order in which they take effect.
--
-- Loops are recursions on lists; `visit` of Container/Iterator/Loop takes a number of rounds, for
-- which one more than the size is proved to be enough, and `drain` of Streambuf/Draining a number of
-- calls, for which one more than the bytes to be read is. `purge` of Container/Iterator/Purge, a
-- client's loop around `erase`, takes a number of rounds, for which again one more than the size is.
--
-- Not modelled: `set_parent` of Carne.hpp, its constructor with a parent and its copy constructor,
-- which do not compile when they are used; the backends of the log's sinks but for the lines of the
-- log file, what the log's attributes write, and the global logger, and the stack traces of errors, which are library objects; the macros of Macros.hpp and
-- MooseToolsConfig.hpp; the unit tests on random numbers and thread ids, which are statistical, and
-- their echo server; the output of test_socks4.cpp.
pub mod Prelude
pub mod Errors
pub mod Carne
pub mod Container
pub mod Asio
pub mod Socks4
pub mod TimedConnect
pub mod Endpoints
pub mod Logging
pub mod Mutexed
pub mod Streambuf
pub mod Mime
pub mod Random
pub mod ThreadId
pub mod Paths
pub mod Strings
pub mod Pimpled
pub mod TestSocks4
pub mod UnitTests
