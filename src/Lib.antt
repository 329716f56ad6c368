-- ===== src/Lib.antt =====
-- Verification of the Jam server prototype: a game server in C++ on completion ports. ServerCore is the
-- network and job library, GameServer the game on top of it.
--
-- How the parts fit. A TCP session receives into its receive buffer, takes packets out of it by the
-- packet loop and hands them to the packet handler; it sends by a queue of send buffers of which one
-- batch is posted at a time. All datagrams come through the one UDP receiver, which asks the service for
-- the session of the sender's address; a UDP session acknowledges, resends and filters by sequence
-- number. The packet handler logs users in, which puts their sessions into the session manager, and puts
-- players into rooms, which the room manager keeps. The listener accepts connections, and a session is in
-- the set of the service from its connection to its disconnect. A player's input moves it and shoots into
-- the past scenes of its room, whose physics jobs the workers run. Rooms are job queues: jobs are pushed by
-- any thread, by the job timer too, and run by one thread at a time. Locks, send buffers and memory pools
-- lie below.
--
-- Files, and the code that they model:
--   Common (Tests, Lists, Words, Dict, Sets): Boolean tests, lists over the native numbers, uint16 and
--     uint32 arithmetic and bits, and association lists and lists for the standard library's maps and sets.
--   RecvBuffer (Fifo, Room): ServerCore/RecvBuffer.h and RecvBuffer.cpp. `clean`, `on_read` and
--     `on_write` are Clean, OnRead and OnWrite; `deposit` is what the system stores.
--   Framing (Frames, Tcp, Udp): IsParsingPacket of TcpSession and of UdpReceiver. Frames describes
--     framing independently of the loops.
--   TcpSession (Stream, Sending): class TcpSession of ServerCore/Session.h and Session.cpp, a function for
--     each Register and Process function, with the outcome of the WinSock call as an argument. Sending has
--     the send path as steps of threads between its critical sections.
--   UdpSession (Window, Ack, Resend, Growth, Sharing): class UdpSession of the same files.
--   UdpReceiver (Armed): ServerCore/UdpReceiver.cpp, Dispatch, ProcessRecv and RegisterRecv.
--   Service (Peers): ServerCore/Service.cpp, the session sets and FindOrCreateUdpSession.
--   SessionManager (Pairing), RoomManager (Lookup), Room (Seats), Snapshots (Ordered), Ids (Distinct):
--     GameServer/SessionManager.cpp, RoomManager.cpp, Room.cpp (players, and the snapshot buffer) and
--     IdManager.cpp.
--   Room (Actors, Execution, Holding, Jobs, Sound, Ticks, Operations, Safety, Entering, Leaving,
--     Capturing): the rest of Room.cpp, with Init of the actors. Actors has the operations and the jobs
--     that they push, Execution what the physics thread does with a job, and Safety the threads as steps
--     in any order. An actor in none of the room's maps has been destroyed, and a job
--     that holds a raw pointer to it faults.
--   PacketHandler (Wire, Duplicates): GameServer/ClientPacketHandler.h, HandlePacket, the tables and
--     MakeSendBufferImpl. A message is its serialised bytes.
--   Handlers (Messages, Directory, Views, Ends, Steps, Entering, Spawning, Shooting, Quiet, Refinement,
--     Yielding, Replying, Total, Faults): GameServer/ClientPacketHandler.cpp, with UserManager.cpp. The
--     world that the handlers share is a record, a handler a computation in a state monad with faults;
--     Messages has one function for each handler, `handle_c_login` for Handle_C_LOGIN. Directory is the abstract view: which user is in which
--     room, which session is whose, and what a message changes of it. `Outside` is what the handlers find that
--     is not theirs: message sizes, how many jobs a push runs at once, players and scenes, and rays.
--   Connection (Falling, Lifecycle, Leak): ServerCore/Listener.cpp, with the connecting and disconnecting
--     part of TcpSession and of Service.cpp, and GameServer/GameTcpSession.cpp. Lifecycle has the steps
--     that a session takes between its connection and its release.
--   Physics (Assignment, Running, Idle): GameServer/PhysicsManager.cpp, the job queues of the rooms and
--     the workers that run them.
--   Player (Shots): GameServer/Player.cpp, what the input of a player does, with BuildRewindScene and
--     ClearRewindScene of Room.cpp. Snapshots and scenes name actors that may have been destroyed.
--   Compressor (RoundTrip): GameServer/TransformCompressor.cpp, the bit fields.
--   JobQueue (Threads, Serial, Drain): ServerCore/JobQueue.cpp, LockQueue.h and GlobalQueue.cpp, as
--     atomic operations and the steps that threads make of them.
--   JobTimer (Due): ServerCore/JobTimer.cpp.
--   Lock (Holds, Kept, Exclusion): ServerCore/Lock.cpp, attempts on the flag and the steps of threads.
--   DeadlockProfiler (Cycles, Invariant, Detection, Stack, Edges, Pushing, Guarding, Kept):
--     ServerCore/DeadLockProfiler.cpp. CheckCycle and Dfs are in the module itself; Stack has PushLock and
--     PopLock, with the lock order that they record and the stack of each thread.
--   SendBuffer (Chunks), BufferIo (RoundTrip): ServerCore/SendBuffer.cpp, BufferReader and BufferWriter.
--   Memory (Coverage, Counts, Stomp): ServerCore/Memory.cpp, MemoryPool.cpp and Allocator.cpp, built with
--     _STOMP, as the sources are, and without.
--
-- Conventions. Numbers are natural numbers; a machine integer has its wrap-around written out where it
-- can wrap, and an int32 that is a length or a position is never negative here. Times are whole
-- microseconds, in place of doubles in seconds. Sessions, buffers, blocks, jobs and addresses are named by
-- numbers. A null reference that is called, an access out of bounds and a failed assertion are values
-- (`none`, `fault`, `crash`).
--
-- Fuel. The packet loops run on one more round than there are bytes: each round that goes on consumes a
-- whole header at least, and the theorems on them say that a result is returned. The loops of the memory
-- table run on the number of sizes, which each round increases. The search of the deadlock profiler
-- recurses at most once more than there are locks, since each call discovers one. A physics worker runs on
-- more fuel than there are readings of the clock before its time is over; each round takes one.
--
-- Not modelled: WinSock and completion ports (their outcomes are arguments), protobuf and its generated
-- code (sizes of messages are an argument), PhysX (what a ray hits, and how it moves an actor, are
-- arguments), floating-point scaling and speeds, log output, thread start-up and the main loop, and
-- GameContextManager, which nothing uses.
pub mod Common
pub mod RecvBuffer
pub mod Framing
pub mod Handlers
pub mod TcpSession
pub mod UdpSession
pub mod SessionManager
pub mod Room
pub mod RoomManager
pub mod Snapshots
pub mod Ids
pub mod Memory
pub mod SendBuffer
pub mod Lock
pub mod JobQueue
pub mod Service
pub mod Connection
pub mod UdpReceiver
pub mod Compressor
pub mod BufferIo
pub mod JobTimer
pub mod Physics
pub mod Player
pub mod PacketHandler
pub mod DeadlockProfiler
