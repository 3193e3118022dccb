-- ===== src/Lib.antt =====
-- tos-messenger: what two agents may agree on, what an owner's budget lets them spend, which actions
-- an agent may take alone, how a message is tried until it is delivered or given up and an event is
-- processed once, who is in a room and who may change that, and what reaches the bytes that are
-- signed and the peer that is told about a failure.
--
-- The parts and their files:
--   * internal/canon (canon.go, reader.go) is Canon: `Text`, `Bytes`, `Hash32`, `Uint32`, `Uint64`
--     and `Digest` write the fields of a preimage (Canon/Encode.antt); a `Reader` takes them apart
--     and keeps its first failure (Canon/Reader.antt). Canon/Document.antt has a whole preimage as
--     a list of fields. Hexadecimal and UTF-8 stand for the standard library's functions.
--   * pkg/fault is Fault: the registry of codes (Fault/Codes.antt), the retry schedule
--     (Fault/Retry.antt) and the response that a peer gets (Fault/Response.antt).
--   * pkg/negotiation is Negotiation: network.go and money.go (Money.antt, with the decimal form in
--     Amount.antt), terms.go (Terms.antt), mandate.go and intent.go (Mandate.antt), budget.go
--     (Budget.antt), commitment.go (Quote.antt, and `Finalize` in Machine.antt), negotiation.go
--     (State.antt, Machine.antt, Creation.antt) and `Snapshot` of snapshot.go (State.antt).
--     `Snapshot.Validate` and `Restore` are Restore.antt.
--   * pkg/eventlog/prune.go, the sweep that both directories share, is Prune.antt.
--   * pkg/eventlog/delivery.go is Delivery: the record of an outbound event and its validation
--     (Record.antt), what each operation makes of a record (Stored.antt), the operations on the
--     directory, `Enqueue`, `ClaimForSend`, `Failed`, `Delivered`, `Abandon` and `Resume` (Outbox.antt),
--     and the sweeps `Due` and `ExpireDeliveries` (Sweep.antt). `CommitSealed` of session.go is
--     Seal.antt and what `Prune` removes Swept.antt. Lifecycle.antt is the abstract life of a delivery,
--     and Calls.antt has all these operations as one family. Failures are rescheduled by pkg/fault.
--   * pkg/eventlog/journal.go and quota.go are Inbound: the record of an inbound event
--     (Record.antt), what each operation makes of it (Stored.antt), `Accept`, the claims, results,
--     reading and admission (Queue.antt), and the listings and the expiry (Sweep.antt).
--     `commitInbound` of session.go and the recovery of staged events are Transition.antt, and what
--     `Prune` removes is Swept.antt. The kind of an event, read from its JSON, is the parameter
--     `EventJson`.
--   * pkg/room is Room: membership.go (Membership.antt), authority.go (Authority.antt), roles.go
--     (Roles.antt), with the Endpoint delegations of pkg/identity/delegation.go (Delegation.antt) and
--     the commit of pkg/payload/kinds_more.go. Changes.antt has the changes of a room as one family.
--   * pkg/firewall is Firewall: effects and the owner's policy (Policy.antt), actions and their origins
--     (Action.antt), `Evaluate` and `EvaluateSpend` (Evaluate.antt). A spend is judged by the mandate
--     of pkg/negotiation too. Instructions, quotations and their frames, channel.go, are Channel.antt.
--   * internal/ids and the other anchored regular expressions are Base/Patterns.antt.
--
-- How the state corresponds. A method of a Go pointer is a function to the new state beside its
-- result, so what was changed before an error stays changed (Negotiation/Exec.antt). A negotiation
-- and the budget that its methods call are a `World`; other negotiations on the same budget are
-- other operations on it. Whether a write to the store or the ledger succeeds is a function in
-- `Env`, chosen anew for each call, and the quote resolver is an argument. Go maps are association
-- lists, strings and slices are lists of bytes, and fixed-width integers keep their wrap-around.
-- SHA-256 is the parameter `Hash`, a function from bytes to 32 bytes, and the standard library's JSON
-- the parameter `Json`. The journal's directory is a table from file names to records, Base64 is the
-- parameter `Base64`, and how each write of a record ends (on the disk, not on the disk, or on the
-- disk with an error) is chosen by the environment. The session directory is not modelled: what it
-- answers to `CommitSealed`, `CommitInbound` and the recovery is chosen by the environment too.
-- Ed25519 is the parameter `Ed25519`: what was signed verifies.
--
-- Bounds and fuel. `decimal` runs on one more round than the number, `backoff_loop` on one round for
-- each attempt; both take the fuel from the source's own bound. `search_loop`, sort.Search, runs on one
-- round for each assignment, and Room/Grants.antt shows that they are enough. `big.Int` is unbounded
-- in the source and a natural number here. An `int` of the reader is 64 bits wide, so a 32-bit length
-- is positive.
--
-- Not modelled: the JSON forms, error texts, presentation (`Money.String`), conversions to generated
-- types, the getters, concurrency inside the budget and the journal (their mutex makes a method one
-- step; `CommitInbound`, which lets go of it between its `Accept` and its commit, is one step too),
-- the session directory, `ActionID`, and the packages for transport, encryption, groups, directories
-- and the commands.
pub mod Base
pub mod Canon
pub mod Fault
pub mod Negotiation
pub mod Firewall
pub mod Delivery
pub mod Inbound
pub mod Prune
pub mod Room
mod Examples
