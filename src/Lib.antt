-- ===== src/Lib.antt =====
-- MetalifePub is a server for Secure Scuttlebutt: peers replicate append-only feeds of signed
-- messages and the blobs they mention. This library models the parts that decide what is
-- replicated, stored and let in. A file models the Go file that its first comment names:
--
--   Ebt          ebt.go                          the notes and frontiers that peers exchange
--   StateMatrix  internal/statematrix/store.go   the frontiers of all peers, in memory and on disk
--   EbtPlugin    plugins/ebt/statetracking.go    the sink that tracks what a peer was sent
--   Sessions     plugins/ebt/session.go          open sessions, and waiting for one
--   Drain        message/drains.go, verifier.go  the checks before a message is appended
--   Slp          internal/slp/encoding.go        lists of byte strings
--   Keys         private/keys/types.go           the addresses of keys
--   Keys.Store   private/keys/store.go           keys under a scheme and an id
--   Wants        blobstore/wants.go              wants for blobs, ours and those of peers
--   Tracker      network/conntracker.go          one connection for each public key
--   Dfa          dfa/dfa.go, dfa/trie.go         the filter for bad words
--   Gossip       plugins/gossip/feed_manager.go  requests for a feed and their limits
--   LiveFeeds    internal/luigiutils/            the sinks that get what is published
--                multisink.go, and feed_manager.go
--   FeedSet      feedset.go                      sets of feeds
--   Graph        graph/graph.go, builder.go,     who follows and blocks whom
--                graph/builder_indexing.go
--   Hops         graph/builder.go                the feeds within reach
--   Replicate    sbot/replicate.go               which feeds are wanted and refused
--   Fsck         sbot/fsck.go, sbot/null.go      the check of the receive log, and the repair
--
-- An EBT session decodes the frontier of a peer (Ebt), merges it into the state matrix (`update`),
-- answers with what changed (`changed`, `load_state`), and serves the wanted feeds through tracking
-- sinks, which ask the matrix before each packet and count it afterwards (EbtPlugin). What a peer
-- sends is poured into the drain that the router has for the author (Drain).
--
-- Contact messages fill the index of the graph (Graph). An update takes the feeds within reach (Hops)
-- and the blocked ones from it, changes what `authorize` lets in, and fills our frontier in the state
-- matrix with notes for them (Replicate).
--
-- A Go function is a function here under its name in snake case. A method takes its receiver, the
-- state, last, and returns its results and the new state. Errors are values of a result type, and a
-- panic is a value where the code can panic. Maps are association lists (GoMap), whose order stands
-- for the order in which one `range` loop visits them; the statements hold for every order. Numbers of
-- 64 bits wrap around where the code computes with them. Strings of references are their canonical text.
--
-- Code outside of the repository is a parameter: the references (Refs), the index below the key
-- store, the failures of the file system, and `strings.Replace`. So is code of the repository that
-- is not modelled: the verification of one message's bytes, and the blob store's sizes. Decimal
-- numbers (Strconv) are defined and proved to be read back. The receive log is a list, and the
-- database below the graph a map from pairs of feeds; what the decoders make of a contact or
-- metafeed message is part of the message. `Slp.decode` is on fuel, with one unit for each byte,
-- which is enough since each round takes two bytes at least. `Hops.hops` is on fuel too; how much
-- is enough, and where none is, are theorems.
--
-- StateMatrix itself loads and saves; what is asked of it is in StateMatrix/Queries, and what changes
-- a frontier in StateMatrix/Changes.
--
-- Interleavings are sequences of steps: of calls of the session store, and of the halves of the
-- `OnAccept` that waits in the middle. Otherwise a call is one step, as it holds its lock from its
-- start to its end, and the locks are left out, but for one call that never returns (`changed`).
--
-- Not modelled: sockets, handshakes and goroutines, the RPC handlers of the other plugins, the
-- multilogs, the path search on the graph, the cryptography of messages and boxes, JSON texts, the
-- command line, the REST and chain services, metrics and logs.
pub mod Prelude
pub mod GoMap
pub mod Strconv
pub mod Refs
pub mod Ebt
pub mod StateMatrix
pub mod EbtPlugin
pub mod Sessions
pub mod Drain
pub mod Slp
pub mod Keys
pub mod Wants
pub mod Tracker
pub mod Dfa
pub mod Gossip
pub mod Fsck
pub mod FeedSet
pub mod Graph
pub mod Hops
pub mod Replicate
pub mod LiveFeeds
pub mod Tests
