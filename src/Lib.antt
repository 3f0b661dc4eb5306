-- ===== src/Lib.antt =====
-- hnet: network services in C++ over io_uring and stackful fibers.
--
-- The program. A fiber that wants to receive or send calls `Submitter` (ring2/ring2/submitter.cc),
-- which puts an entry into the kernel's submission queue through `Ring` (ring2/ring2/ring.cc) and
-- goes to sleep. The address of a `UringResSetter` on the fiber's stack travels with the entry. The
-- scheduler, when no fiber can run, asks `RingPoller` (ring2/ring2/poller.cc), which takes
-- completions from the ring, writes their results into the setters and returns the fibers to wake.
-- A request with a timeout has two entries and two setters, and wakes its fiber when both are set.
-- The programs src/srv2.cc and src/infallible_udp.cc are an echo server and its client; five/five is
-- their library of utilities; netring/netring is an older layer over io_uring.
--
-- What models what.
--   Prelude          numbers, texts of bytes, options, results and memory, shared by all
--   Five.Time        five/five/time.h, time.cc: `Instant`, `Duration`; Time/Clock.antt the clock
--   Five.Config      five/five/config.h: structures that are saved to a table and loaded from one
--   Five.Program     five/five/program.h, and what the `main` of a program makes of it
--   Five.Xrange      five/five/xrange.h, xrange.cc
--   Five.RingBuffer  five/five/ring_buffer.h
--   Five.ObjectPool  five/five/object_pool.h: `ObjectPoolLite`; ObjectPool/Intrusive.antt
--                    `ObjectPool`, over an intrusive list that is a parameter
--   Five.BitPtr      five/five/bit_ptr.h: tags in pointers; BitPtr/Owners.antt what they delete
--   Five.Objects     the objects that are there: made by `new` and not deleted
--   Five.UnitTests   five/five/ut: the unit tests, as functions into Bool
--   Five.Linux       five/five/linux.cc: `set_affinity`
--   Ring2.Kernel     liburing, as a parameter: its calls, and what its manual says of them
--   Ring2.Addr       ring2/ring2/addr.h, addr.cc
--   Ring2.Sock       ring2/ring2/sock.h, sock.cc
--   Ring2.Ring       ring2/ring2/ring.h, ring.cc: the constructor is `make_ring`
--   Ring2.Poller     ring2/ring2/poller.h, poller.cc: `TryPoll` is `poll_fiber`, `TryPollMany` is
--                    `poll_fibers`; Poller/Setters.antt has the setters and `dispatch`
--   Ring2.Submitter  ring2/ring2/submitter.cc: the two `ring_submit`
--   Ring2.Messages   ring2/ring2/submitter.cc: the requests of `Submitter`
--   Netring.Uring    netring/netring/uring.cc: requests with a cookie; Uring/Callbacks.antt those
--                    with a callback, and their pool of contexts; Uring/Tracked.antt the cookies
--                    that the kernel has
--   Netring.Net      netring/netring/net.h, net.cc: addresses and the UDP socket
--   Netring.Request  netring/netring/uf.h: `Request`, which owns the buffer of a message
--   Netring.Sure     netring/netring/sure.h: the copies of its `Request`
--   Netring.Executor netring/netring/uf.h, uf.cc: the dispatch loop, with the handler of src/srv.cc;
--                    Executor/Owners.antt who owns its buffers, stacks and objects
--   Programs.Srv     src/srv.cc: `Run`
--   Programs.Server  src/srv2.cc; Server/Start.antt what `Run` sets up, Server/Accept.antt
--                    the loop that takes connections, Server/Connections.antt that of one
--                    connection, Server/Turns.antt the rounds of both kinds of server
--   Programs.Client  src/infallible_udp.cc: one fiber; Client/Fibers.antt all fibers, by turns;
--                    Client/Whole.antt `Run`
--   Programs.Cli     src/cli.cc; Cli/Whole.antt `Run`
--   Programs.Joins   the loops of both clients that spawn the fibers and count their rounds
--   Programs.Report  src/infallible_udp.cc: the figures that are made of the timings
--   Programs.Settings   the configurations of the four programs
--   Programs.EndToEnd, Programs.Timeouts   the client against the server, and against silence
--   Examples         a simulated kernel, and the results that have hypotheses at concrete inputs
--
-- How it is modelled. The state is passed explicitly: the ring with its kernel queue, and the store
-- of the setters by address, as the setters are shared between the fiber and the poller. Only one
-- thread runs, so other fibers act where the source calls `tf::Yield` (a function on the ring) and
-- `Suspend` (the list of the completions that the poller dispatches until the fiber is woken, those
-- of others among them). In a whole client the fibers take turns, in any order. Errors that are
-- thrown are values; an undefined behaviour is `none`, or an error of its own. Objects that are made
-- and deleted are known by their addresses. A handler of netring runs in two parts, up to the wait
-- for its send and from there on; what toml++ and the C library do is an argument. An `i64` is an
-- integer that is checked to be in range, a `size_t` is a number modulo 2 ^ 64, and a result of a
-- call is an integer. The counters of the clients that are an `int` stay below 2 ^ 31: `overflow`
-- stands for the undefined behaviour where one would not. A run of a whole client is given the
-- turns of its fibers, and has no result where the loops could not have had them (`no_run`).
--
-- Bounds and fuel. The submission loop, the padding loop, the loop over a range and the loop that
-- clears a pool have fuel; it is enough if it exceeds the number of rounds, which the theorems state.
-- A whole client pads with one more than the length that is wanted. The loop of `poll_cookie` has
-- its own bound of 150000000 attempts. A ring counts right while fewer than 2 ^ 64 completions are
-- outstanding, a ring buffer is shorter than 2 ^ 63, and a tagged pointer has at most 32 types.
--
-- Not modelled: floating point statistics and logging; where a fiber of src/infallible_udp.cc closes
-- its socket; the members of `BitPointer` that would not compile, in place of which stand those of
-- `EitherPtr2`; the schedulers and contexts of tinyfibers and
-- sure, which are submodules; src/proto.cc, whose type `net::Buf` is nowhere in the repository;
-- src/reh.cc, a sketch that returns for the empty request alone; five/five/type_name.cc, one call of
-- the C++ runtime; several UDP fibers of src/srv2.cc at once, as a fiber that is woken goes on with
-- the ring that it left; and the loop of netring/netring/sure.h, a prototype that no source file
-- includes and that cannot be instantiated.
pub mod Prelude
pub mod Five
pub mod Ring2
pub mod Netring
pub mod Programs
pub mod Examples
