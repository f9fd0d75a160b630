-- ===== src/Lib.antt =====
-- The simulators of the DLMS/COSEM access point: a head-end system (HES), an access point (AP) and
-- meters. Meters register with the HES by connecting to it; the HES sends the AP the payload size
-- and the addresses of its meters in one message; the AP then opens a session with each meter, reads
-- it and prints the readings. The DLMS/COSEM library, asio, Boost and the operating system are not
-- part of the repository: they are arguments and record parameters of the model.
--
-- Prelude, Prelude/: the native numbers, lists, options and texts, with the lemmas that are shared.
-- Texts are lists of bytes.
--
-- Core: src/core.
--   Core/Timer        LinuxSimpleTimer.cpp; ticks are 32-bit numbers with the wrap-around written out.
--   Core/Io           error codes and statuses of both kinds of socket.
--   Core/Socket       LinuxSocket.cpp, LinuxTCPSocket: each operation answers with the new state and the
--                     calls that it makes, in order. Socket/Connect follows a connection attempt from
--                     the resolver's answer on.
--   Core/Registry     the socket lists of LinuxIP (LinuxSocket.cpp) and LinuxSerial, where a release is
--                     a task of the event loop.
--   Core/Serial       LinuxSerial.cpp, LinuxSerialSocket. Indices beyond an option table are `none`.
--   Core/Debug        LinuxDebug.cpp with the option HEX_TRACE.
--   Core/Services     LinuxSemaphore (LinuxSynchronization.cpp) and LinuxScheduler.cpp. Services/Exclusion
--                     has the threads over a semaphore, as a relation of steps.
--
-- Meter: src/Metersim.cpp and src/server, the objects of a meter. `Meter.Cosem.Library` is what they
-- ask of the library.
--   Meter/Disconnect, Meter/ImageTransfer, Meter/Data, Meter/Clock: the InternalGet, InternalSet and
--                     InternalAction of the class of that name. Exceptions of the value decoding are
--                     outcomes.
--   Meter/Schema      the schemas, attributes and methods that LinuxDisconnect and LinuxImageTransfer
--                     declare.
--   Meter/Device      LinuxManagementDevice of LinuxCOSEMServer.cpp: the four objects, the instances that
--                     their constructors give, and requests to them. `Meter.Device.Server` is what the
--                     library's server decides and answers.
--   Meter/Simulator   the main loop of Metersim.cpp.
--
-- Client: the client that src/APsim.cpp and src/HESsim.cpp hold in two copies, and src/Linux.cpp in part.
--   Client/Library    the client engine with its socket and the event loop, as one state.
--   Client/Confirm    LinuxClientEngine::OnGetConfirmation, which differs in the three programs.
--   Client/Callbacks  all callbacks of LinuxClientEngine, as events of the library.
--   Client/Outcome    how a call that runs the event loop ends: OnGetConfirmation may throw through it,
--                     and that leaves main.
--   Client/Session    classes APsim and HESsim. The loop of `open` runs on fuel; its own counter of
--                     tries starts at 400.
--
-- Ap: src/APsim.cpp.
--   Ap/Config         class Config and tcp_connection; the loop of the constructor runs on fuel, one
--                     more than the bytes that are left, of which each round takes one.
--   Ap/Script         runScript. What is found in a payload size that was never set is a parameter.
--   Ap/Readings       the operators that print readings.
--   Ap/Server         tcp_connection, RegistrationServer and regs, as a machine over the ends of their
--                     asynchronous operations.
--   Ap/Main           main: the arguments, and the rounds with the messages that arrive between the calls of a
--                     round.
--   Ap/Threads        a round of main with Ap/Server beside it, on one configuration.
--
-- Hes: src/HESsim.cpp and src/websocket/HESConfig.cpp.
--   Hes/Message       multiRead, the message to the access point, which Ap/Config reads.
--   Hes/Registration  the set of meters and the connections that fill it.
--   Hes/Server        tcp_connection, RegistrationServer and regs, over the accepts that end.
--   Hes/Script        runScript, over Client/Session.
--   Hes/Config        load and save on streams and files, load_from_string and the getters, over a
--                     parameter for property trees.
--   Hes/Main          main: the arguments, and the rounds with what happens between them. A round's
--                     message stands for the connection that carries it.
--
-- Web: src/websocket.
--   Web/Session       class session of server.cpp and taskrunner.cpp, as a machine over the ends of its
--                     asynchronous operations, with the answer to a message as a parameter.
--   Web/Server        the answer of server.cpp, which loads settings of Hes/Config.
--   Web/TaskRunner    fetchNetStats and the answer of taskrunner.cpp; the loop runs on fuel, one more
--                     than the bytes of the pipe.
--                     TaskRunner/Main is main, TaskRunner/Conversation a session's replies.
--   Web/Listener      class listener of both programs.
--   Web/Program       server: the listener and its sessions, the handlers of one io_context in the
--                     order in which their operations end.
--
-- Console: src/Linux.cpp, the test harness with its menus.
--   Console/Number    std::stoi with base 0, and std::to_string; an `int` has 32 bits.
--   Console/Input     class AppBase: the lines typed are a list, and its end is the end of the input.
--   Console/Machine   handlers as computations that return or stop: by exit, at the end of the input, by
--                     a call through a null pointer, or by the use of a socket that has been removed.
--   Console/Pointers  the pointers of ClientApp over the socket lists of Core/Registry, and the library
--                     that it calls, as a parameter.
--   Console/Client    class ClientApp: Connect, Requests and Disconnect are the branches of
--                     ClientMenu_Handler, Menu is the choice between them and the event loop, whose
--                     other events are the confirmation of a disconnect and any change of the network.
--                     What a handler has posted runs before the next event.
--   Console/Server    class ServerApp.
--   Console/Main      main.
--
-- System: a round of Hes/Main and the round of Ap/Main that takes its message in. System/Service takes
-- the requests of the scripts to the meter of Meter/Device, System/Reading follows a reading back to the
-- access point, and System/Rounds has any number of rounds of both programs.
--
-- Sessions, sockets and scripts are sequential: a handler or a call is one step, and the theorems say
-- where a history of steps is arbitrary. Mutexes, threads and real time are left out. The registration
-- server of the AP runs beside its main loop in Ap/Threads and in the `Arrivals` of Ap/Main; that of the
-- HES runs between the rounds of Hes/Main. Not modelled are the accessors of src/core
-- (LinuxBaseLibrary.cpp, LinuxCore.cpp), LinuxMemory.cpp, which calls calloc and free, and the macros of
-- the library in src/server/LinuxCOSEMServer.cpp, of which only the objects that they register are kept.
pub mod Prelude
pub mod Core
pub mod Meter
pub mod Client
pub mod Ap
pub mod Hes
pub mod Web
pub mod Console
pub mod System
