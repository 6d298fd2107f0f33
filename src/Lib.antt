-- ===== src/Lib.antt =====
-- croissant, a NIP-29 relay: groups, their moderation and subgroups, private and hidden groups,
-- gift-wraps, and the storage that survives a shutdown. The program's parts, and where they are modelled:
--
--   Guard       guard.go, and closeStore of store.go. The gate is a record; enter, exit and Close are
--               functions on it. Operations has the single calls of guardedStore, Query its iteration,
--               Schedule the interleavings of goroutines with Close and the unmapping as a step
--               relation, and Safety what holds in every interleaving.
--   Conntrack   conntrack.go: the set of hijacked connections. Once has its theorems, Ends what holds
--               while CloseAll and the connections go on side by side.
--   Roles       sameRoles of utils.go. Same has its theorems.
--   Groups      group.go and the state of state.go. Tags has the lookups by an event's tags, Children the
--               two sides of a link between groups, Hierarchy wouldCreateCycle.
--   Write       reject_event.go, with giftwrap.go (GiftWraps) and presence.go (Presence). Moderation has
--               the rules for each moderation action. Access, Creation and Checks have the theorems.
--   Process     process_event.go. Phases has the steps that its parts share, Members the counts of
--               AllMembers, Moderation and Reactions the two halves of ProcessEvent. Invariant, Fuel and
--               Effects have the theorems.
--   Read        query.go, rejectRequest of state.go, and authedAreTheSameAsPTagged of giftwrap.go.
--               Visibility, Requests and Recipients have the theorems.
--   Startup     loadGroupsFromDB of group.go up to its renewals, which Sync has. Established has its theorem.
--   Deleted     LoadDeletedGroupState of group.go. Snapshot has its theorem.
--   Sync        SyncGroupMetadataEvents of group.go, and its two callers: handleEventSaved of state.go in
--               Saved, and NewGroupsState in Started. Freshness, Broadcast and Complete have the theorems.
--   Relay       StoreEvent of relay.go. Rollback has its theorem.
--   LiveKit     livekit.go: Rooms has the calls of the LiveKit server, Handlers the HTTP handlers. Gate, Known
--               and Reported have the theorems.
--   Text        the splitting, trimming and joining of texts that global/settings.go does. Trim and Fields
--               have the theorems.
--   Config      global: the settings, with the form that changes them (Form), its numbers and the rate
--               limiter (Limits), the file that keeps them (File), the logins of auth.go (Login), and the
--               URLs with the address that main.go listens on (Address).
--   Blobs       blossom.go, fs, and filepathJoinWithAbsolute of utils.go. Place has its theorem.
--   Reset       relayHandler, configureRelay and resetRelay of relay.go. Served has its theorem.
--   EventLog    eventlog.go: the line that events.log gets for an event. Lines has its theorem.
--   Favicon     favicon.go: the cache of the relay's icon. Cached has its theorem.
--   WireLog     wire_log.go: the lines on the terminal; Lines has its theorem. Requests has the two
--               middlewares of main.go, with the values of a context of global/auth.go.
--   Shutdown    the end of run in main.go, with shutdownServer and closeStore, as relations: connections and
--               goroutines go on meanwhile. Order has its theorem.
--   Wipe        wipe.go. Events and Gate have its theorems.
--   Nostr       the data and the calls of the nostr library, as parameters. Base has the helpers, Verdict
--               the answers of the reject functions, Tests a small library and store with the theorems
--               applied to them.
--
-- How they interact: the relay library asks Write about every event that a client publishes and Read
-- about every request; the store is reached through Guard; an event that was stored goes to Process,
-- which changes the state of Groups that the others read, and Sync renews the metadata events of the
-- groups that were affected. Write stores a placeholder for a group that it lets be created, which
-- Process replaces, or Relay takes away when the event could not be stored. Startup builds the first state,
-- after Config has loaded the settings; a change of them by the owner's form ends in Reset. At the end,
-- Shutdown closes the connections of Conntrack, then the gate of Guard and the store.
--
-- Reading the model: a *Group is the entry of `groups` under its id, and the concurrent maps are finite
-- maps; the functions of Groups, Write, Process and Read run one after the other. Keys and event ids
-- are numbers, times are not negative, and a role is its name. The int32 last50index and the uint32
-- deletedCacheIndex are kept as 32-bit patterns. A panic (a nil group, an index out of range) is an
-- outcome of ProcessEvent. ProcessEvent calls itself, so it takes fuel: 2 is enough. wouldCreateCycle
-- has the bound of the source, 1024 rounds.
--
-- Parameters: NostrLib (tags, hexadecimal, signatures, preparing an action), MetadataLib (the metadata
-- events of a group), EventStore, Lru (the cache of presence answers), the pool of relays, the rate
-- limiter, and the clock. Of the store, the theorem on NewGroupsState assumes that a query without ids
-- yields no more events than it is asked for, its maxLimit. An action of the library is its type with a
-- function on the group; the theorems on the invariant of Process assume that this function keeps the
-- group's id.
--
-- The files of os, encoding/json, the key generator, base64, nip19, signatures, net/url, net/http, the S3
-- client and path/filepath are parameters too, as the calls that the code makes of them; what Persistence
-- assumes of files and JSON is that what was written is read. A text is a list of characters; where Go
-- counts bytes, so does the model, or the comment says why that makes no difference. A Go int is an integer of 64 bits, and a
-- product that overflows is kept as its bit pattern.
--
-- Not modelled: the routes of relay.go and its hooks that only log or pass on, initStore, the reading and
-- removing of blobs (single calls of libraries), and the generated pages. sameRoles reorders the tags of the event
-- that rejectEvent was given; the function is modelled with that effect, rejectEvent without it.
-- handleEventSaved is not followed where an affected group has left the map: its outcome is then named so.
pub mod Base
pub mod Nostr
pub mod Verdict
pub mod Guard
pub mod Conntrack
pub mod Roles
pub mod Groups
pub mod Process
pub mod Read
pub mod Write
pub mod Relay
pub mod Sync
pub mod Startup
pub mod Deleted
pub mod Wipe
pub mod Text
pub mod Config
pub mod LiveKit
pub mod Shutdown
pub mod Blobs
pub mod Reset
pub mod EventLog
pub mod Favicon
pub mod WireLog
pub mod Tests
