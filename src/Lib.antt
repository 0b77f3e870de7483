-- ===== src/Lib.antt =====
-- A verification library of the StealthLink protocol.
--
-- The program is the Go package protocol/core/transport: a client and a server that carry TCP
-- connections, UDP datagrams and IP packets in frames over disguised connections. The server
-- authenticates a client, checks each destination in the firewall, and relays.
--
-- Wire models framing.go and what reads its formats. Wire.Address has EncodeAddress and
-- DecodeAddress, Wire.Frames the encoders and decoders of payloads, Wire.Writer the FrameWriter
-- with its batch and timer, Wire.Reader the FrameReader with the buffer pool, Wire.Stream the
-- readers of addresses of relay.go, Wire.Connect the server's own reading of a connect payload,
-- and Wire.Channel a writer and a reader at the two ends of a connection.
-- Replay models replay.go: the hashes, the Bloom filter over 64-bit words, and the filter of two
-- generations with its two locks. Auth models auth.go: the users, the rate limit, the payloads.
-- Firewall models firewall.go: the private ranges, the checks, the counts of connections and the
-- tracking of bandwidth. Redstone models redstone.go, the disguise as a Minecraft session: its
-- integers, packets, the byte stream over packets, the handshake, and the two ends of a session.
-- Subscription models subscription.go: the transports of a server, the statistics of dials, the
-- choice by weight and the ranking. Proxy models the SOCKS5 proxy of proxy.go and Associations the
-- UDP associations of udp_assoc.go.
-- Server models server.go: TLS connections from authentication over the choice of a mode to the
-- relay, with the firewall's counts, Server.Frames the sessions of frames with their goroutines as
-- tasks that an event list interleaves, and Server.Quic the connections and streams of QUIC.
-- Peeking models the connections of peeking_conn.go and camouflage.go that are read ahead, with
-- the check of replays that all listeners make, Reality the ClientHello that reality.go takes for
-- its own, Camouflage the web server of camouflage.go, Upstream the dial of upstream.go, which is
-- the client of Server's connections, and Mirage the sessions over HTTP of mirage.go. Dialing and
-- Link model client.go: the attempts to reach a server, and the connections that the client holds.
-- Padding models the padding of padding.go and Stealth the decoys and the throttle of stealth.go.
-- Runs holds runs on concrete inputs.
--
-- A Go method is a function from the state to the new state and the result; an error is a value of
-- the sum Result. A connection is the bytes that are left to read, or the bytes written and the
-- answers that the writes will give. A lock is not modelled: a section under a lock is one step,
-- and interleavings are lists of steps. Clocks and random bytes are arguments.
-- Fuel bounds the loops over connections: one more than the number of frames for
-- Wire.Channel.read_frames, one more than the bytes for Redstone.Conn.Transparency.read_all, and
-- as many rounds as bytes for the two loops of Redstone.Conn; the theorems show it to be enough.
-- All other loops are structural, over the bytes, arrivals, requests, candidates or events.
--
-- Packages outside the repository are parameters: the record IpText of Wire.Net stands for the
-- text of addresses in Go's net, Crypto of Auth.Manager for SHA-256, HMAC and the parser of times,
-- RealityCrypto of Reality for X25519, HKDF and AES-GCM, and Tidy of Subscription.Transports,
-- HttpText of Camouflage and ErrorText of Dialing for functions on texts, each with the laws that
-- the code relies on. Whether a dial, a resolution or a listener succeeds is an argument, and in
-- Server.Frames also the address that a dial or a resolution finds.
-- Not modelled are the copying of a relay, the libraries of TLS, QUIC, HTTP and WebRTC and what
-- only calls them (masque.go, webrtc.go, uquic.go, cert.go), the pages of camouflage.go, the HTTP
-- proxy, the command lines and the devices: they are input and output.
pub mod Prelude
pub mod Wire
pub mod Replay
pub mod Auth
pub mod Firewall
pub mod Redstone
pub mod Subscription
pub mod Proxy
pub mod Associations
pub mod Server
pub mod Peeking
pub mod Reality
pub mod Upstream
pub mod Camouflage
pub mod Dialing
pub mod Link
pub mod Mirage
pub mod Padding
pub mod Stealth
mod Runs
