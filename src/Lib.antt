-- ===== src/Lib.antt =====
-- A model of the network protocol library: an FTP client, a WebSocket server, HTTP messages, the
-- observers and the dispatcher that carry their events, and the files and the sockets, with TLS or
-- without, below them.
--
-- The program's parts. Every object is a CSubject (INCLUDE/CSubject.hpp): it has observers, which it
-- tells of connections, bytes and disconnections, and a target, to which it hands what it writes.
-- A CDispatcher (INCLUDE/CDispatcher.hpp) is the outermost subject; its worker turns the events of
-- the operating system into calls of the handlers of the devices that observe it. A CListener
-- (INCLUDE/CListener.hpp) calls functions of the user's. A CProtocol (INCLUDE/CProtocol.hpp) observes
-- a socket, gathers bytes until its subclass finds a message, and hands the message to the subclass's
-- state machine. CProtocolFTP, CProtocolWS and CProtocolHTTP (INCLUDE/CProtocolFTP.hpp,
-- INCLUDE/CProtocolWS.hpp, INCLUDE/CProtocolHTTP.hpp) are such subclasses. A CDevice
-- (INCLUDE/CDevice.hpp) is an open file, and a CDeviceSocket (INCLUDE/CDeviceSocket.hpp) a device for
-- a connection, which puts OpenSSL between the connection and its observers. The functions of npl.hpp
-- construct a protocol and its socket and connect both with the dispatcher.
--
-- Which file models which part.
--   Base: shared names, Boolean tests, lists over native numbers, decimal numbers as
--     `std::to_string` writes them and `sscanf` and `std::stoi` read them.
--   Protocol: `CProtocol::OnRead` for any subclass; Protocol/Lifecycle has `StartClient`,
--     `StartServer`, `Stop` and `OnConnect`. `Subclass` is the pair of virtual methods, and
--     `Reader` the buffer, the messages, what observers were given, and the subclass's state.
--   Ftp: CProtocolFTP. `Client` is the object, with a list of effects for what goes to the sockets,
--     the file, the dispatcher and the user; `Result` is a client or a fault that the program does
--     not survive (an empty container, a null pointer, a failed assertion, an exception).
--     Ftp/State has the data, Ftp/Commands the queue and the public methods, Ftp/Transfer the data
--     channel and the file, Ftp/Machine the table `FSM` and the control connection, Ftp/Reply
--     `IsMessageComplete`, Ftp/Session sequences of events, their surroundings and the invariant.
--     Ftp/Opening is the login, Ftp/Download, Ftp/Showing and Ftp/Feeding are one download, listing
--     or upload, with the parts that they share in Ftp/Passive and Ftp/Blocks, and Ftp/Pieces,
--     Ftp/Script and Ftp/Whole put any number of these and of calls behind one another; Ftp/Sent has
--     the lines that are sent, and Ftp/AnyTime is about the time of a call; Ftp/Stuck and
--     Ftp/Unread are about sessions that go wrong. Whether `Read` of the local file gives a context is
--     a field of the client, which the event `read_turns` changes. Ftp/Replay does what a client asks
--     of its file by the calls of a
--     CDevice, those of Linux in Ftp/Stored and those of Windows in Ftp/StoredLate, and `pump` of
--     Ftp/Pump joins the reads of the file with the handlers that the dispatcher calls for them.
--   Ws: CProtocolWS. Ws/Frame has `ParseMessage`, `IsMessageComplete` on frames and
--     `SendProtocolMessage`; Ws/Handshake has `StateMachine`, `SendServerHello` and `OnAccept`, on a
--     `Session` with what was written and what the callback was given; Ws/Session joins both with
--     the HTTP parser and the reader of CProtocol, and Ws/Serving adds the start of the server and
--     the accept of a connection.
--   Subject: CSubject and CListener, as a world of subjects under numbers; Subject/Forward has
--     `Read`, `Write`, `ReadSync`, `WriteSync` and `QueuePendingContext`, as the search for the
--     subject whose own method is reached.
--   Dispatcher: `ProcessContext` on Linux. Dispatcher/Control has `Worker`, `AddEventListener`,
--     `QueuePendingContext` and the listener of `InitializeControl` that puts contexts together, and
--     Dispatcher/Setup the rest of `InitializeControl`. Dispatcher/Port is `Worker` on Windows.
--   Http: the parser of CHTTPMessage, `IsMessageComplete` and `Post`; Http/Lines has the lines of the
--     headers, Http/Search where their end is found, Http/Request messages without a body as a
--     client writes them, and Http/Post what `Post` writes.
--   Device: CDevice on Linux, over the system calls (`Kernel`); `Outcome` is a result, a failed
--     assertion, or a loop that outlasts its bound. Device/File names what is relied on for a
--     file: its content and its position, and what `read` and `write` make of them. Device/Overlapped
--     is the file on Windows, where requests are started and completed later, and Device/AnyOrder
--     what is relied on for it.
--   Socket: CDeviceSocket on Linux, over the system calls and OpenSSL (`Engine`); `told` is what its
--     observers are told. Socket/Events has the handlers, `Read` and the start of a connection.
--     Socket/Overlapped and Socket/Accepting are the requests that it starts on Windows.
--   Factory: `make_ftp`, `make_ws_server`, `make_http_client` and `make_file`.
--
-- Bounds and fuel. `deliver` counts how deep observers are nested; no theorem depends on how deep it
-- is. `get_dispatcher` counts the rounds of its loop; one more than the subjects on the way is enough.
-- `drain` and `read_all` count the rounds of the loops of `UpdateWBIO` and `OnRead`; as many as bytes wait, and one more, are
-- enough. `update_wbio` counts how deep it calls itself through `StopSocket`; two is enough where
-- OpenSSL sends a goodbye that it is asked for. `pump` counts the reads of a file that is uploaded;
-- one more than its bytes is enough. `decimal` writes at most twenty digits, which hold
-- every number of 64 bits. All other loops recurse on their input.
--
-- Parameters. `BTOL` and `LTOB` belong to a library that is not in the repository: they are a record
-- of two functions, of which the theorems use that as many bytes as asked for are written and read
-- back as the number. What memory holds where the program reads without having written, behind a
-- buffer or in an array of the stack, is an argument. Handlers are virtual: `deliver` has those of
-- CSubject and CListener, and takes those of the classes below, which assert and put TLS in between,
-- as an argument, as the dispatcher does with these and the `Read` of a device (`Classes`);
-- Socket/Events, Socket/Overlapped and Protocol model them, and no theorem on the dispatcher supposes
-- that they come back. `MessageDigest` and `Base64Encode` are two functions of which nothing is supposed.
-- The system calls are a record of functions on the state of a descriptor, and OpenSSL is one on the
-- state of a connection with its two memory BIOs; Socket/Laws names what the theorems use of them:
-- that a connected socket takes what it is given until sending is shut down, that a memory BIO is a
-- queue of bytes, and that `SSL_read` gives some of what is decrypted from its front, no more than asked
-- for; Device/File does so for a file. That SSL_shutdown sets SSL_SENT_SHUTDOWN is a hypothesis of the
-- theorems that need it. How a `Context` lies in memory is a record of functions between contexts and bytes.
--
-- What is not modelled. The locks, threads and memory management, destructors included; what is
-- compiled for Windows only, but for the file of CDevice, the requests of CDeviceSocket and the
-- worker; the addresses of sockets and whether they block; CLogger, which only prints; and the example
-- programs but for the FTP client of TestNPL.cpp, whose calls stand in Ftp/Sample. Numbers that
-- `sscanf` reads outside the range of `int` are taken modulo 2 ^ 32.
pub mod Base
pub mod Protocol
pub mod Ws
pub mod Ftp
pub mod Subject
pub mod Dispatcher
pub mod Http
pub mod Device
pub mod Socket
pub mod Factory
