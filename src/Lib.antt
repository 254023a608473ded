-- ===== src/Lib.antt =====
-- The WatchFirewall kernel extension: an application firewall for macOS that filters sockets by rules, which
-- client programs set over a kernel control socket.
--
-- The parts and the files that model them:
-- - Kernel: the kernel's atomic operations (OSIncrementAtomic, OSDecrementAtomic, OSBitOrAtomic), which are
--   parameters with their documented laws. Machine integers of 32 bits wrap at `word`.
-- - SimpleBase: the reference count that rules, messages and clients inherit (Kext/simpleBase.h).
-- - Links: the doubly linked lists. An object is an address, its fields are functions of it, and
--   0 is NULL. Links/Segment says which list of addresses a chain stands for; Links/Edit and
--   Links/Insert prove what each edit does to it, and Links/Loose where links back are missing.
-- - Queue: the singly linked queue with a head and a last pointer, which holds a client's messages.
-- - Rule and Rules: one rule (Rule::Init, Rule::Compare) and the list of them (FindRule, AddRule,
--   DeleteRule, ActivateRule, DeactivateRule, Free), of Kext/rule.h and Kext/rule.cpp. Rules.walk is the
--   loop that these methods share.
-- - Messages: the message types of Shared/messageType.h, the sizes and layout of the raw messages, and the
--   Create functions of Kext/messages.cpp. Messages/Requests has the bytes that clients send, and Wire
--   those that the extension sends.
-- - Client: a connected client, its message classes and its queue (Kext/client.h, Kext/client.cpp).
--   Client/Thread has SendThread, which hands the queue to the socket, as a step relation, and
--   Client/Thread/Channel the channel that it is compared with.
-- - Cookies: the list of socket cookies with its count, and the data that a cookie holds back
--   (Kext/cookie.h, Kext/cookie.cpp). Cookies/Tags has the tags of mbufs, over the kernel's calls.
-- - Applications: the processes that open sockets (Kext/application.h, Kext/application.cpp), and the
--   rounds of the thread that looks for ended ones (check_round and check_rounds, of CheckIsLiveRoutine).
-- - Firewall: the state of the extension and its clients (KcConnect, KcDisconnect, Send of
--   Kext/firewall.cpp). Firewall/Request reads a client's message from the bytes of the buffer,
--   Firewall/Handlers has a function for each case of the switch in KcSend, and Firewall/KcSend
--   has the switch and the loop around it; Firewall/Requests and Firewall/Batch read there what
--   Messages/Requests wrote.
-- - Filter: the callbacks of the socket filter (Kext/firewall.cpp): Attach and Detach with the cookie of
--   a socket, and in Filter/Passing those that leave a socket as it is. Outcome tells a return from an
--   access at NULL.
-- - Lifecycle: the start and the stop of the extension (Kext/watch.cpp, Firewall::Init and Free), with
--   Init and Free of its parts and their locks.
-- - Connection: the user's end of the control socket (Shared/ServerConnection.h, ServerConnection.cpp).
-- - Console: the program of ConsoleTest. Console/Handler has ReciveMessageHandler as the calls of printf that it makes,
--   Console/Names and Console/PortNames the names that it prints, and Console/Main its main, its signal handler
--   and its end of the connection as a step relation. Console/Events and Console/Report say the
--   same in terms of the Create functions, and Console/Stream goes the whole way of a message.
--
-- How they interact: a client's buffer comes to kc_send, whose loop calls dispatch for each message; a
-- handler creates the answer, calls the method of Rules, Client or Firewall that the request is for, and
-- offers the answer to the client that asks (reply) or to all (send_all); send puts it in a client's
-- queue if the client has the message's class. A method that holds a lock from its first statement to
-- its last is one step. Allocations that may fail are Boolean parameters, NULL addresses or
-- `none`, and what the kernel gives while a message is handled is the record Env. Attach finds or makes
-- the application of the process, and Detach gives back its reference. The thread of a client, the
-- senders and the closer interleave: a step of Client/Thread is one access to what they share. While
-- the extension stops, other threads enter as a function on the state (Lifecycle/Watch, Stopping).
--
-- Bounds: loops over linked lists and over a buffer take fuel, and `none` means that it ran out. Fuel
-- for one more than the length of a list, or than the bytes of a buffer, is enough where the list
-- ends and each message has a size.
--
-- Not modelled: CreateTextFromCookie, which nothing calls, what stands behind an
-- unconditional return in the callbacks, the times that threads sleep, and the program in AppTest.
-- printf, vsnprintf, inet_ntop, ntohs and the constants of the system's headers are parameters, or calls that are
-- listed. A message's own reference count is left out: a queue holds the message itself.
pub mod Prelude
pub mod Kernel
pub mod SimpleBase
pub mod Links
pub mod Queue
pub mod Rule
pub mod Rules
pub mod Messages
pub mod Client
pub mod Cookies
pub mod Applications
pub mod Firewall
pub mod Connection
pub mod Console
pub mod Filter
pub mod Lifecycle
pub mod Wire
pub mod Tests
