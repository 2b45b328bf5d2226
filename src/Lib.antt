-- ===== src/Lib.antt =====
-- Verification library of the instant messenger: a server in C++ on epoll, and a client on Qt that
-- speaks the same protocol over TCP.
--
-- The server takes connections, cuts each connection's byte stream into packets of a header of 16
-- bytes and a body, and handles a packet by its type: heartbeats, logins, group and private
-- messages, user lists, and the offers, answers and chunks of file transfers between two clients.
-- Its answers are queued per connection and written as the socket takes them. Connections that end,
-- fail or fall silent are queued and closed between two rounds of the event loop.
--
-- The client connects, logs in and sends a heartbeat every five seconds, keeps the offers and the
-- file transfers that are under way by their ids, reads and writes the files in chunks, and tells
-- the windows what happens by signals.
--
-- Files, and the code that they stand for:
-- - Base: what every module shares; Base/FdMap is a map keyed by a descriptor, in the order of its
--   keys, Base/NameMap one keyed by a string.
-- - Wire: server/include/common/message.h. Endian are the byte orders with hostToNetwork64 and
--   networkToHost64 of server/src/protocol.cpp, Text the character arrays with boundedStrnlen of
--   server/src/utils.h, Message the packed structs and enums, with their memory images below it.
-- - Protocol: server/src/protocol.cpp and client/network/protocol.cpp. Frames is parseData and
--   removeClient, Server and Client the packers and parsers of each side, RoundTrip reads with one
--   side what the other side packs.
-- - Clients: server/src/client_manager.cpp. Each method is a function on the table.
-- - Server: server/src/server.cpp. Connection is ClientHandler's output, State the members of
--   Server, Send its sends, Login, Chat and Files the cases of handleMessage, Dispatch the switch,
--   the read loop and the heartbeat rounds, Disconnect registration and disconnects. Invariant
--   says what a state keeps from step to step; Invariant/Reachable has the steps. Start is start and
--   initListenSocket with the end of the listening socket, Run is run with the accept loop.
-- - Reactor: server/src/reactor.cpp on server/src/epoll_wrapper.cpp. Epoll has the kernel's side as a
--   record of calls with the laws of their manual, Handlers the handler map, Poll the poll loop.
-- - TcpClient: client/network/tcpclient.cpp. Request has what the windows ask for, Receive
--   onReadyRead and processMessage, Transfer the files, Lifecycle the connection. Session is the
--   sequence of all that can happen to a client, Talks is about what it writes to the server.
-- - ChatWindow: client/ui/chatwindow.cpp. Slots has the slots and buttons, with the slots that run
--   while a call of the client emits signals, Rows the table of transfers, Accept its texts.
-- - LoginWindow: client/ui/loginwindow.cpp.
-- - Tests: runs on small inputs.
--
-- A method that changes members is a function from the state to the state, with its answer beside
-- it where it has one. A descriptor that may be -1 is an Option. Numbers of a packet are kept in
-- their width by the writers, byte by byte. What is not the program's is handed to the functions:
-- the clocks, the kernel's answers to send as a list in each connection, those to recv as a list for
-- each read event, those to the socket calls of start and to epoll_wait, and whether a new
-- descriptor could be registered. Where a list of answers ends, the kernel has no more to give, as
-- after EAGAIN. The client's functions are handed Qt's texts and the answers of the file system; a
-- call on a file or the socket and a signal is an entry of a list in the state, in the code's order.
--
-- parse_loop, the loop of parseData, runs on fuel, one unit for each byte of the buffer. A round that
-- goes on takes the 16 bytes of a header at least, so the fuel is not used up before the loop ends.
-- find_free, the search for a free name, has no bound in the code; here it makes as many rounds as
-- names are taken, and one number more than that must give a free one. The other loops are
-- structural.
--
-- Not modelled: the mutexes, as each operation is taken as one step; the joins of the heartbeat
-- thread; the two main functions; console output; the looks of the windows, the key filter of the
-- chat window's input, and what happens while a message box waits for the user; the number that
-- onReadyRead's int makes of a length above 2^31, which a header that is valid excludes. In Server,
-- a connection's interest is what the reactor keeps for it: queueSend and handleWrite ignore the
-- answer of modifyHandler, which sets it first, so a call to epoll_ctl that fails is not seen there;
-- Reactor has both sides.
pub mod Base
pub mod Wire
pub mod Protocol
pub mod Clients
pub mod Reactor
pub mod Server
pub mod TcpClient
pub mod ChatWindow
pub mod LoginWindow
mod Tests
