-- ===== src/Lib.antt =====
-- Verification library of blackwire, a V2Ray-compatible proxy in Rust.
--
-- A server accepts a connection on a transport (TCP, TLS, WebSocket, mKCP, ...), reads the header
-- of a proxy protocol from it (VLESS, Trojan, SOCKS5, ...), and relays bytes to the destination that
-- the header names. One VLESS connection can carry many sessions in Mux.Cool frames, and UDP in
-- datagrams with an address in front. A router picks the outbound for a destination, a balancer one
-- of several outbounds, and for traffic of a TUN device a table keeps the UDP flows and a pool of fake
-- addresses leads back to names. This library models the parsers and the encoders of the headers,
-- frames and datagrams, the mKCP engine, which works on segments without doing I/O, and these
-- decisions and tables.
--
-- Common      crates/blackwire-common/src: error.rs (Result), address.rs and domain_wire_len of
--             relay.rs (Address), socks5_address.rs (Socks5). Stream is tokio's AsyncRead, Maps the
--             crate dashmap, and Action a call that keeps state.
-- Vless       crates/blackwire-protocol/src/vless/codec.rs: read_varint and put_varint (Varint), the
--             addons (Addons), request and response (Codec), the address of a packet (AddressPort).
--             vless/udp.rs: a packet on the stream (Udp).
-- Mux         crates/blackwire-protocol/src/vless/mux.rs: metadata blocks (Metadata), frames (Frame),
--             relay_mux_cool (Relay: its tables and New frames; Handle: the loop, with the proofs
--             in its children) and the reader tasks (Client).
-- Trojan      crates/blackwire-protocol/src/trojan/codec.rs.
-- SocksUdp    crates/blackwire-protocol/src/socks5_udp.rs: the datagrams.
-- Mkcp        crates/blackwire-transport/src/mkcp: segment.rs (Segment), header.rs (Header) and
--             kcp.rs: state (Kcp), recv and send (Window), input and what it calls (Input), update and flush (Flush).
-- UdpNat      crates/blackwire-transport/src/tun/nat.rs: the table of UDP flows.
-- App         crates/blackwire-app/src: balancer.rs (Balancer), dns/fakeip.rs (FakeIp), dns/cache.rs
--             (DnsCache), router.rs with the matchers of geo/geoip.rs and geo/geosite.rs (Router),
--             health.rs (Health), pick_route_xray of dispatcher.rs (Dispatch), the TLS part of sniff.rs
--             (Sniff).
-- Ss2022      crates/blackwire-protocol/src/ss2022/replay.rs (Replay).
-- Prelude     Tests, lists, bytes, UTF-8 and bits that the parts share.
-- Runs        The development on concrete inputs.
--
-- A function keeps its name; a method of Kcp takes the engine and returns it. A definition whose
-- name the source does not have is a part of a function: a branch, a loop, or the body of a loop.
-- Bytes are lists of numbers, a string is the list of its bytes with `is_utf8`, an IP address the
-- list of its octets. `Result` has the source's errors as values, `panic` for an index or slice out
-- of range or a division by zero, and `stuck` for a loop that has not ended or a wait for a lock
-- that does not come free. Messages of errors are constructors of `Fault`: text is left out, and
-- two truncated fields have the same fault. Decoders that read from a stream take tokio's AsyncRead
-- as a record of functions and its documented behaviour as a record of laws (Common/Stream); a list
-- of bytes is an instance of both. The same is done with the crate dashmap (Common/Maps), with lru
-- for the fake addresses (App/FakeIp/Maps, with lists for both in Concrete), lru for the cache
-- (App/DnsCache) and ipnet for the router (App/Router/Ip, Disjoint). The type f64 is a record of
-- its operations without laws, a shared health table or geo database is what its get answers, and a
-- clock is an argument. In the balancer the times that an Instant can represent are an argument
-- too, and a sum behind them panics; the DNS cache has sums without a bound, as its caller keeps
-- what it inserts for 300 seconds.
--
-- The relay of Mux.Cool handles one frame at a time. The outcome of each call that a frame makes is
-- an argument (Calls). Streams, sockets and reader tasks are numbers in the order in which they
-- were made; its state has, besides the tables, the reader tasks that were spawned and not aborted,
-- and a list of what was written and sent. The lock of an outbound stream, which its reader holds
-- while it waits, comes free or does not as Calls says; in the second case the relay waits for
-- ever, and results on the relay say so. The other calls that it awaits are taken to return. Reader
-- tasks touch no table; what they write to the client is a function of what their reads return. The
-- frames of several readers are whole, since each is written under the lock of the writer, and
-- their order is not modelled.
--
-- Arithmetic is that of a release build: sums of u16, u32 and usize that can exceed their width
-- wrap, and are written with % 2 ^ 16, % 2 ^ 32 and % 2 ^ 64. An i32 of the mKCP engine is its
-- two's complement. Five loops recurse on fuel. put_varint has ten rounds, enough for ten groups of
-- seven bits. parse_flow_from_addons has one more round than there are bytes, which is enough where
-- no declared length wraps the cursor; a result about the loop for every fuel covers the rest.
-- Kcp::input has as many rounds as bytes, and every round takes 24 bytes. The loop over the labels
-- of a name has as many rounds as the name has bytes, and every round drops one at least. The loop
-- over TLS extensions has one more round than there are bytes, and every round takes four.
--
-- Not modelled: the relay loops other than that of Mux.Cool and everything else that does I/O, the
-- cryptography of other crates (SHA-224 of the Trojan token, TLS, AEAD), configuration, how
-- matchers are built from text, the rest of the dispatcher, the DNS client, the other protocols and
-- transports, and the user interface. Allocation in the fake IP pool and a pick of the balancer are
-- one step each, as for one caller at a time.
pub mod Prelude
pub mod App
pub mod Common
pub mod Vless
pub mod Mux
pub mod Trojan
pub mod SocksUdp
pub mod Ss2022
pub mod Mkcp
pub mod UdpNat
pub mod Runs
