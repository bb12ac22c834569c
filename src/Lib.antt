-- ===== src/Lib.antt =====
-- The BDLS consensus of this repository (Go package bdls): a model of the state machine and of what
-- it promises.
--
-- A participant is one object `Consensus` of consensus.go. Its user feeds it the bytes of messages
-- (ReceiveMessage), the time (Update), states to agree on (Propose) and peers (Join, Leave). It keeps
-- a list of rounds at the next height with the messages of each, a list of locked states, and four
-- timeouts; it sends <roundchange>, <lock>, <select>, <commit>, <lock-release>, <decide> and <resync>
-- messages, to its peers and to a queue of messages to itself that the same call works off.
--
-- Files, and the code that they model:
--   Errors.antt            errors.go
--   Message.antt           message.go, message.proto: Message, SignedProto, State
--   Message/Axis           PubKeyAxis, Identity, DefaultPubKeyToIdentity
--   Message/Signing        SignedProto.Hash, Sign, Verify, PublicKey
--   Round.antt             consensus.go: consensusRound, messageTuple, GetMaxProposed
--   Consensus/State        the fields of Consensus, t()
--   Consensus/Timing       roundchangeDuration ... lockReleaseDuration
--   Consensus/Rounds       getRound, switchRound, roundLeader, heightSync
--   Consensus/Proposals    Propose, HasProposed, maximalLocked, maximalUnconfirmed
--   Consensus/Checks       verifyMessage, and what the loops over proofs share
--   Consensus/Verify       verifyRoundChangeMessage ... verifyDecideMessage, ValidateDecideMessage
--   Consensus/Send         broadcast, sendTo, propagate, broadcastRoundChange ... sendCommit
--   Consensus/Locks        lockRelease, the locks on <lock> and <lock-release>
--   Consensus/Handlers     the cases of receiveMessage, a function each
--   Consensus/Receive      receiveMessage, ReceiveMessage and its deferred loop
--   Consensus/Update       Update, a function for each stage
--   Consensus/Peers        Join, Leave, the accessors
--   Consensus/Config       config.go; NewConsensus and init of consensus.go
--   Agent.antt             agent-tcp/gossip.proto, errors.go; TCPPeer of tcp_peer.go
--   Agent/Numbers          big.Int's Bytes and SetBytes
--   Agent/Handshake        ECDH, handleGossip, the key authentication of TCPPeer
--   Agent/Framing          readLoop, sendLoop
--   Agent/TcpAgent         TCPAgent
--   Timer/Tasks            timer/timedsched.go: timedFuncHeap, Push and Pop of container/heap
--   Timer/Sched            sched: what a goroutine does with a task and at a tick
--   Timer/Scheduler        TimedSched, Put, prepend
--   IpcPeer.antt           ipc_peer.go
-- The other files of Message/, Round/, Consensus/, Agent/, Timer/ and IpcPeer/ hold proofs only, Base/
-- what all files share, Samples/ a group of four participants over toy codes, with tests.
--
-- How the code is read:
--   * A method is a function from the state to an Outcome: a value, an error that is returned, or a
--     panic. In receiveMessage every error is returned before a field is assigned, so that an error
--     has no state of its own.
--   * What no method assigns after init stands in the record Setup, the rest in the record Consensus.
--     A *consensusRound is a reference into `heap`, since `currentRound` and the list `rounds` share
--     rounds; the list may lose a round that is still the current one.
--   * The order in which Go ranges over a map does not matter to the code; a map is a list of
--     entries with one entry for each key.
--   * Fixed arrays of bytes (StateHash, PubKeyAxis, Identity) are the numbers of their big-endian
--     digits; State is an optional list of bytes, with nil apart from the empty slice. Heights and
--     rounds wrap at 2^64, durations are the bit patterns of int64; a time is a number of nanoseconds
--     with 0 for the zero time.
--   * BLAKE2b, ECDSA and the protobuf coding are the fields of the record Primitives, a parameter;
--     nothing is assumed of them in general. An ECDSA signature depends on the position `rand` in
--     the stream of random numbers. Messages that leave the object are appended to `outputs`. The
--     sort of GetMaxProposed keeps the order of equal hashes, which sort.Sort leaves open.
--   * The deferred loop over the queue runs on fuel; without fuel it stops with the queue as it is,
--     and no theorem is about how it ends. Reach takes single steps of it, in any order with the
--     other calls.
--   * Sign and DefaultPubKeyToIdentity panic on a key with a coordinate of more than 32 bytes. Such own
--     keys are outside of the model: the type PrivateKey has none of them. The curve functions that
--     agent-tcp calls on received coordinates give none where they panic.
--
--   * A connection of agent-tcp is a TcpPeer with the inbox of its agent (Session). The curve, the
--     keyed hash, the random numbers and the protobuf coding are the fields of the record Suite. The
--     stream of a connection is the list of bytes until it fails; writes are taken. readLoop runs on
--     fuel, of which one more than the bytes of the stream is enough; out of fuel is a result of its
--     own. Channels that only wake a goroutine are left out. A *TCPPeer is a reference into the heap
--     of the TcpAgent; each call of the consensus sees the keys that its peers have at that time.
--   * The goroutines of timer/timedsched.go take steps in any order. A timer is the time at which it
--     fires. up, down and the loop of a tick run on fuel: the length of the heap, and one more.
--   * IPCPeer of ipc_peer.go hands functions to the timer; here they are values, and a run takes them
--     in any order. The floating-point noise of a delay is a parameter.
--
-- Not modelled: cmd/emucon (command line, files), the generated message.pb.go and gossip.pb.go, and
-- the copies of other libraries under crypto and vendor.
pub mod Base
pub mod Errors
pub mod Message
pub mod Round
pub mod Consensus
pub mod Agent
pub mod Timer
pub mod IpcPeer
mod Samples
