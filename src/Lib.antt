-- ===== src/Lib.antt =====
-- A verification library for sing, the networking library in this repository.
--
-- Parts, and the files that model them:
-- - common/buf/buffer.go: Buf (the record and the methods, a method of the same name each), with the
--   proofs by kind of method in Buf/Writes, Buf/Reads and Buf/Cursors, Buf/Queue (a buffer as a
--   bounded queue) and Buf/Emit (code that only appends).
--   Buf/Fills has the fills from a reader. common/buf/alloc.go, the pooled allocator: Buf/Pool, with
--   its size classes in Buf/Pool/Sizes and its promises in Buf/Pool/Stores.
-- - common/metadata: Metadata (addr.go), Metadata/Serializer (serializer.go, socksaddr.go), with what
--   is written in Metadata/Serializer/Wire and what is read back in Metadata/Serializer/RoundTrip.
-- - protocol/socks/socks5/protocol.go: Socks5, Socks5/Writes, Socks5/RoundTrip.
-- - protocol/socks/socks4/protocol.go: Socks4, Socks4/Strings, Socks4/Requests, Socks4/RoundTrip,
--   Socks4/Responses.
-- - common/auth/auth.go: Auth, Auth/Users.
-- - protocol/socks/handshake.go: Handshake, on the connections of
--   Handshake/Conns; Handshake/Client (the two client handshakes), Handshake/Client/Runs (with the
--   server); Handshake/Ensures (what every end of the handler ensures), Handshake/Safety (who is let
--   in), Handshake/Exchange (what is answered).
-- - protocol/socks/lazy.go (LazyConn): Handshake/Lazy, Handshake/Lazy/Runs.
-- - protocol/socks/packet.go: Associate, Associate/RoundTrip, Associate/InPlace.
-- - common/uot/protocol.go: Uot, Uot/RoundTrip; conn.go, the packets: Uot/Packets; server.go, the two
--   loops over packets: Uot/Server, Uot/Server/Runs, Uot/Server/Frames, Uot/Server/Outputs.
-- - common/json/comment.go: CommentFilter, CommentFilter/Emits, CommentFilter/Reads (reads of any
--   sizes), CommentFilter/Pieces (the texts it is meant for).
-- - common/cache/lrucache.go: Lru; Lru/Recent (a list of recent entries, as its clients see it),
--   Lru/Shows and Lru/Parts (the cache stands for such a list), Lru/Calls, Lru/Refines, Lru/Bounds,
--   Lru/Clears.
-- - common/x/linkedhashmap/map.go: LinkedHashMap, LinkedHashMap/Refines.
-- - The list that both use, with the map from keys to its elements: Linked, Linked/Index,
--   Linked/Coherent.
-- - service/pause/default.go: Pause, Pause/Refines, Pause/Waits.
-- - common/replay/simple.go: Replay, Replay/Seen.
-- - common/cond.go, the helpers on slices: Slices, Slices/Reverse, Slices/Uniq.
-- - common/abx/reader.go: Abx, on the state of Abx/Bytes, with a writer in Abx/Writes, what is read back
--   in Abx/RoundTrip and Abx/Tokens, and Abx/Safe.
-- - common/bufio/cache.go (CachedReader): Cached, Cached/Order.
-- - common/bufio/nat.go: NatConn, NatConn/Laws.
-- - common/varbin/uvarint.go: Varbin, Varbin/Uvarint.
-- - common/domain/matcher.go: Domain (Match) and Domain/Rules (NewMatcher), with reverseDomain in
--   Domain/Reversal; Domain/Trie and Domain/Layout (the search of a set is the search of the trie that
--   it lays out), Domain/Marks and Domain/Names (what keys with marks accept), Domain/Rules/Accepted,
--   Domain/Rules/Loops and Domain/Rules/Decides (what NewMatcher's keys accept). Domain/Stored and
--   Domain/Stored/RoundTrip have the stored form, with the sizes of Varbin.
-- - common/ranges/range.go: Ranges; Ranges/Gaps (joining sorted ranges), Ranges/Inside (their bounds and
--   their number), Ranges/Merge (the loop with its index), Ranges/Revert, Ranges/Exclude.
-- - Go's io, encoding/binary and net/netip, as far as the code uses them: Stream and Netip.
-- - Common: shared names, Go slices as lists, and Outcome, what a Go call does (a value, an error, or
--   a panic).
-- The socks messages are written into buffers by the serializer and read back by it, so their
-- theorems rest on those of Buf and Metadata.
--
-- Bytes and ports are natural numbers; a Go int that counts bytes is a natural number. Readers are
-- the list of the bytes to come, and an address writer returns the bytes of its one Write. The
-- allocator behind NewSize, netip.ParseAddr and sort.Slice are parameters, with the part of their
-- contracts that is used as hypotheses (Serves, Parses, Sorts); the pooled allocator keeps Serves. It
-- rests in turn on bits.Len32 (CountsBits) and on what sync.Pool hands back (Picks). A connection of
-- the handshakes is the bytes to come, the bytes sent, and the number of writes that it takes before
-- it breaks. The keys of maps are of any type with a decidable equality. Times are natural numbers,
-- and the readings of the clock are parameters of a call. Exclude, the loop of Uot/Server and Clear of
-- Lru take fuel: one turn more than there are packets is enough for the loop where their addresses
-- are resolved, and one turn for Clear. The scan of the labels in Domain has a turn for each bit
-- of the bitmap and one more, reverseDomain one for each byte, Token of Abx has turns for the
-- attributes of a tag, of which one more than there are is enough, and a number of 64 bits has at
-- most ten groups of seven. The succinct set of Domain is a mod of another library: newSuccinctSet
-- is a parameter, and its calls countZeros and selectIthOne are too, with the layout of its trie
-- as a hypothesis (IsSetOf); init is one in Domain/Stored, and so is the size up to which make
-- allocates. The connections below NatConn are parameters with any state. The reads of the comment
-- filter are as many as there are slice sizes, and more of them than bytes to return are enough.
--
-- Not modelled: real connections, goroutines and timers, system calls, code that rests on reflection, and
-- the copies of other libraries (common/binary, common/x/list, common/json/internal, contrab, and the
-- index of common/domain/set.go).
pub mod Common
pub mod Auth
pub mod CommentFilter
pub mod Handshake
pub mod Buf
pub mod Stream
pub mod Netip
pub mod Metadata
pub mod Socks4
pub mod Socks5
pub mod Uot
pub mod Associate
pub mod Linked
pub mod LinkedHashMap
pub mod Lru
pub mod Pause
pub mod Replay
pub mod Slices
pub mod Ranges
pub mod NatConn
pub mod Varbin
pub mod Domain
pub mod Abx
pub mod Cached
mod Tests
