-- ===== src/Lib.antt =====
-- Wineing runs NxCore, a Windows library of market data, under Wine and serves it to Linux clients
-- over ZeroMQ. This library models the C++ program under src/main/c and proves what makes it correct.
--
-- Parts, and how they interact. `main` (src/main/c/main.win.cc) parses the command line and starts
-- three threads (src/main/c/impl/all/core/wineing.cc). `cchan_in_thread` receives control requests
-- and publishes commands in a shared control block, `g_data`; `market_thread` reads the block and runs
-- NxCore, which calls `nxtape_process` for each message, and that reads the block too;
-- `cchan_out_thread` passes the responses on. The block is guarded by a version number
-- (src/main/c/impl/all/conc/conc.cc): a thread copies it only when its own version differs.
--
-- Which file models what:
--   Prelude         numbers, lists, C memory: `memcpy` and C strings. `none` is a memory fault: an access
--                   outside a buffer, or a size that its type cannot hold.
--   Ctrl, Ctrl/Copy `w_ctrl`, its commands and copy functions (inc/core/wineing.h).
--   Conc            `lazy_init`, `lazy_update_global_if_owner`, `lazy_update_local_if_changed`; Owners
--                   splits the update into its test and its critical section, for two writers.
--   Threads         both update functions again, a shared access at a time, as a step relation of one
--                   writer and any number of readers that run in any order. Invariant says what
--                   holds at each place, Moves that every step keeps it, Safety what follows; Alone
--                   relates an uninterrupted run to Conc, Progress shows how a call gets to its
--                   end, Fresh what it finds, Atomic that every run is one of whole calls,
--                   and Relaxed what holds whatever the test without the lock reads. `updates` and `values` of `World` record
--                   what was published, for the theorems only.
--   Proto           the messages of resources/protobuf; the generated code is the parameter `Codec`.
--   Chan            `chan_recv`, `chan_send` (inc/net/chan.h); Chan/Socket is net/chan.cc,
--                   Chan/Sockets the sockets that the threads hold, Chan/Buffers the buffers of
--                   the response thread.
--   Startup         how a thread opens its channels.
--   Control         `cchan_in_thread`: `process` is its switch, `in_turn` the body of its loop,
--                   `in_loop` the loop. Cases and Outcome list what a request can lead to, Owner has
--                   the invariant, Spec an abstract machine, Round and Loop the loop's agreement with
--                   it, Updates how far the shared version moves, Start the thread from its
--                   beginning, Faults and Tape the buffer.
--   Reader          the read of the block that three places share; Fresh, Behind, Skip and Wrap are
--                   about it.
--   Market          `market_thread` (Loop) and `nxtape_process` (impl/wine/nx/nxtape.cc); Replay runs
--                   NxCore with that callback over the messages of a tape.
--   Out             `cchan_out_thread` (Forward: its loop, Start: the whole thread).
--   Nx              impl/wine/nx/nxinf.cc; Nx/Linux has the stubs of impl/linux/nx.
--   Log             the macro of inc/log/logging.h. The other modules leave its calls out.
--   Cmd, App        main.win.cc, and `wineing_init`, `wineing_run`, `wineing_shutdown`, as their calls;
--                   App/Whole puts Boot in the place of the calls.
--   Program         the three threads, the callback and the inproc channel as one step relation, in any
--                   order of their actions. Invariant and Moves have its invariant, Answers the account
--                   of the responses, Safety and Ending what follows; Obeys, Plays and Prompt are
--                   about the market thread and the callback, Delivery about the responses, Leaks
--                   about buffers; Calls has what the threads do to the block as whole calls.
--   Boot            `wineing_run` from its first thread on: how the threads open their channels (as Startup
--                   and Chan/Socket have it) while others run their loops (as in Program). Invariant,
--                   Safety, Hangs and Ending are about when the threads return (Hangs/Unsent: when
--                   the response to a shutdown comes too late), Sockets counts the
--                   sockets that are open over a run.
--   System          what the threads do together: Delivery and Halt follow one request, Session a
--                   whole conversation, Overflow a long response, Unanswered a race at the shutdown.
--   Tests           concrete inputs.
--
-- State is passed explicitly: a handler takes the thread's variables and the shared block and returns
-- them. What comes from outside is an argument: the messages and return codes of ZeroMQ as a list of
-- rounds, the shared states that a thread's reads find as a list, Windows, NxCore and the generated
-- protobuf code as records of functions. A loop is a recursion over its rounds, so no fuel is needed.
--
-- Numbers: a version is a C `int`, kept as its bit pattern below 2^32 and incremented modulo 2^32 (in
-- C++ the overflow is undefined; the model is that of a machine that wraps, so `none` does not stand for it). So a reader that misses 2^32 updates between two
-- reads does not notice (Reader/Wrap); the other theorems bound the number of missed updates. The
-- conversions between `size_t` and `int` in `chan_recv` are written out. Buffers are lists of bytes
-- of the length allocated, with arbitrary contents at the start.
--
-- ZeroMQ as it is documented: a connect to an inproc endpoint fails while nothing is bound there; a
-- send to a PUSH socket blocks while no PULL end is open (in Program and Boot; the modules about one
-- thread take it that each call returns, with the code that is given); `zmq_term` waits until all
-- sockets are closed and all their messages are sent.
--
-- Threads takes shared accesses as sequentially consistent: the unlocked read of the version is a data
-- race in C++, which the source relies on the hardware for; Threads/Relaxed lets it read anything. The
-- other modules take a read and an update of the shared block as single steps; Threads/Atomic shows
-- that every interleaving is a run of such steps, and Program/Calls that the program uses the block by
-- such steps only.
--
-- Not modelled: the cache-line alignment, the `chan` structures, which are never freed,
-- the Java client, and ZeroMQ, protobuf, Windows and NxCore themselves.
pub mod Prelude
pub mod Ctrl
pub mod Conc
pub mod Proto
pub mod Chan
pub mod Startup
pub mod Control
pub mod Reader
pub mod Market
pub mod System
pub mod Out
pub mod Nx
pub mod Log
pub mod Cmd
pub mod App
pub mod Threads
pub mod Program
pub mod Boot
pub mod Tests
