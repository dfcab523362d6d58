-- ===== src/Lib.antt =====
-- KernelExplorer server: a verification library for the server of this repository.
--
-- The server accepts TCP connections from the tool `kesctl`. The bytes of a connection go into a
-- `ContinuousBuffer`; the `SessionHandler` of the connection counts braces to find the end of a JSON
-- request, and hands the text to the `RequestProcessor`. That reads the text into a `PropertyBag` with
-- the help of the registry of known properties, calls the handlers that are registered for the
-- request's key, and writes their response as JSON again. The files:
--
--   Prelude        tests on numbers, lists, integers, texts, outcomes of a call, hash maps
--   Buffer         include/kesrv/util/continuousbuffer.hxx: `create`, `push`, `pop`, `reset`, `data_ptr`;
--                  `push` is cut into `shift`, `enlarge` and `append`, the steps of its body
--   ReadBuffer     include/kesrv/util/readbuffer.hxx: the two buffers of a socket, and how onRead of
--                  src/kexplorer-server/tcpserver.hxx uses them
--   Session        src/kexplorer-server/sessionhandler.cxx: `open_session` and `process`, whose parts are
--                  `examine`, `scan`, `finish`, `dispatch` and `conclude`, and `fail` for the catch block
--   Crc32          include/kesrv/util/crc32.hxx: the table and the checksum that number properties
--   Property       include/kesrv/property.hxx: values and descriptions of properties
--   Registry       src/kesrv/knownprops.cxx: `register`, `lookup_id`, `lookup_name`
--   KnownProps     src/kesrv/init.cxx and the properties of include/kesrv that it registers
--   Bag            include/kesrv/propertybag.hxx, include/kesrv/util/requestutil.hxx
--   Bag/FromJson   src/kesrv/propertybag.cxx: JSON documents to bags
--   Bag/ToJson     src/kesrv/propertybag.cxx: bags to the calls of a JSON writer
--   Bag/RoundTrip  both halves: the document that a bag is written as (`document`, `Writes`)
--   Requests       src/kexplorer-server/requestprocessor.cxx, src/kesrv/util/requestutil.cxx
--   ProcFs         src/kesrv/processmgr/procfs.cxx: the readers of /proc
--   Client         src/kesctl/client.cxx: the connection, one command and its response
--   TcpServer      src/kexplorer-server/tcpserver.hxx: sessions as steps of completions
--   Server         src/kexplorer-server/main.cxx: TcpServer with a SessionHandler for each session and one
--                  RequestProcessor; `Stream` is what a session has received by the way
--   Exceptions     include/kesrv/exception.hxx, src/kesrv/util/exceptionutil.cxx
--   Logger         src/kexplorer-server/logger.cxx: the line of a message
--   Condition      include/kesrv/condition.hxx: the calls of many threads, cut where the mutex is free
--   AutoPtr        include/kesrv/util/autoptr.hxx, generichandle.hxx: owners of pointers
--   FixedString    include/kesrv/fixedstring.hxx
--   Address        src/kesrv/util/netutil.cxx: `split_address`
--   Handlers       src/kexplorer-server/globalcmdhandler.cxx, src/kesrv/processmgr/processmanager.cxx
--   Tests          runs at concrete inputs
--
-- How C++ is read. A `size_t` is a natural number with its wrap-around written out (`add_size`). A
-- `std::vector<char>` or a text is a list of bytes. A hash map is an association list; its order of
-- iteration is the order of the list, and theorems hold for every list. A call returns, ends the
-- process (`terminates`: an exception leaves a `noexcept` function) or has undefined behaviour
-- (`undefined`, such as a read past the end of a vector). An exception that a function catches is a
-- value of a result type. Assertions are off, as in a release build. A function that changes an object
-- returns the new one. Every loop of the models runs along a list, so no fuel is needed,
-- but for the fields of a stat line: each takes a byte at least, so the length of the text is enough
-- (`read_fields_fuel`); the digits of a number run on fuel that is more than the number (`decimal`),
-- and eight hexadecimal digits on eight.
--
-- Bounds. `IsValid` keeps the vector and the limit of a buffer under 2^62 bytes, and a call hands over
-- less than 2^62 bytes: then no sum of sizes wraps, and the program's sizes are 65536.
--
-- Arguments of the models, and not definitions: the JSON parser and its number classes
-- (`Environment.parse`, `Numbers`), whether it meets an error in bytes that no NUL follows
-- (`Environment.stops_within`), the text that a JSON writer makes of its calls (`Environment.render`), the
-- messages of exceptions (`Environment.what`), the order in which the multimap of the handlers iterates
-- after an insertion (`register_handler`), what of a response a socket takes before `async_write` returns
-- (`Link`), the contents of files, links and directories of /proc, `std::strtod`, and in `TcpServer` the
-- session handlers, which `Server` gives. `strtol` and `strtoul` are written out for decimal numbers in the
-- "C" locale with a 64-bit `long`.
--
-- How the parts meet. A completed read of the server hands bytes to a session handler; `Session` shows
-- what that does with them, `Requests` what becomes of a whole request (`process_at`: of what is at the
-- pointer that it is given, with a terminator or without), and `Server` puts the three together: bytes of the peer become a response that the peer is sent, if its socket takes the whole
-- response before `write` frees the text (`begin_write`). The process manager is given what
-- `ProcFs` reads (`observe`). The tool reads the responses with the same buffer and brace counter;
-- `Server/Exchange` follows a command from the tool to the server and its response back.
--
-- Not modelled: the files of the log, the command line and the daemon, the threads of iorunner.hxx, the
-- calls of vsnprintf in format.cxx, and the libraries of 3rd_party.
pub mod Address
pub mod AutoPtr
pub mod Bag
pub mod Buffer
pub mod Client
pub mod Condition
pub mod Crc32
pub mod Exceptions
pub mod FixedString
pub mod Handlers
pub mod KnownProps
pub mod Logger
pub mod Prelude
pub mod ProcFs
pub mod Property
pub mod ReadBuffer
pub mod Registry
pub mod Requests
pub mod Server
pub mod Session
pub mod TcpServer
pub mod Tests
