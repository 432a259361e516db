-- ===== src/Lib.antt =====
-- Verification library of bairelay, a bridge from Reolink cameras, which speak the Baichuan
-- protocol, to RTSP and MQTT. A camera is reached over TCP or over UDP; its media stream is cut
-- into frames and handed to the RTSP side.
--
-- Wire models the two libraries the codecs stand on: nom's streaming parsers as an interface with
-- their laws (Wire/Nom), cookie-factory's writers likewise (Wire/CookieFactory), and one concrete
-- instance of each (Wire/Concrete) on which the examples run.
--
-- Bcmedia models src/baichuan/bcmedia: the frames of model.rs (Bcmedia/Model), the parsers of de.rs
-- (Bcmedia/Parse), the writers of ser.rs (Bcmedia/Print), and BcMediaCodex of codex.rs
-- (Bcmedia/Codex), whose loop runs on fuel; two rounds are enough.
--
-- Bc models src/baichuan/bc: the messages of model.rs (Bc/Model), the cipher of crypto.rs with
-- make_aeskey of src/baichuan/bc_protocol/credentials.rs (Bc/Crypto, with AES and MD5 as
-- parameters), the session context and what de.rs decides by it (Bc/Context), the parsers of de.rs
-- (Bc/Parse), the writers of ser.rs (Bc/Print), and BcCodex of codex.rs (Bc/Codex, with what it
-- frames, remembers and loses in the modules below it). The XML trees that quick_xml derives are a
-- parameter, with the fields that the codec reads. Bc/Fits says which messages fit the wire;
-- Bc/Written, Bc/RoundTrip and Bc/Cap hold the lemmas.
--
-- Poller models the routing of src/baichuan/bc_protocol/connection/bcconn.rs: the commands of its
-- queue are steps, a channel is a number, and what a step sends is its effect. Poller/Sender has
-- which channel a message takes, Poller/Held what a subscription survives, Poller/Reply its reply,
-- Poller/Upgrade how a subscription to an ID alone takes a number.
--
-- Udp models src/baichuan/bcudp: the packets of model.rs (Udp/Model), the masking and checksum of
-- xml_crypto.rs and crc.rs (Udp/Crypto, with crc32fast as a parameter), the parsers of de.rs
-- (Udp/Parse) and the writers of ser.rs (Udp/Print), both with the XML that quick_xml derives as a
-- parameter, and BcUdpCodex of codex.rs (Udp/Codex). Udp/RoundTrip and Udp/Cap hold their lemmas,
-- the second over Wire/Within, which says how much input a streaming parser can ask for.
--
-- Udp/Flow models UdpFlowState of src/baichuan/bc_protocol/connection/udpsource.rs, which makes a
-- reliable ordered stream out of datagrams, with its latency statistics in Udp/Flow/Latency. Its
-- loops run on fuel, one round more than the reorder buffer has entries, since each round takes or
-- passes one of them.
--
-- Bridging models BridgingPolicy of src/gap_bridging.rs, which replays the last key frame while a
-- camera's stream stalls; Bridging/Steady runs it on sequences of events, Bridging/Clock on the
-- ticks of one gap, and Bridging/First has the tick that opens it.
--
-- Registry models src/wake_server/registry.rs, the two bounded maps that the wake server fills from
-- heartbeats; a call under the mutex is one step. The order in which a hash map is iterated is left
-- open: the theorems hold for any list of entries.
--
-- WakeLock models src/wake_lock.rs, the counter that keeps a battery camera awake, and the test of
-- src/watchdog.rs that disconnects an idle one; WakeLock/Steps interleaves the atomic steps of its
-- threads, WakeLock/Watchdog puts the reads of the watchdog between them, and WakeLock/Race has the
-- schedules that mislead it. A poisoned mutex, which the source skips, is left out.
--
-- Rtp models the fragmenters packetize_fu_a of src/rtsp/codec/h264.rs and packetize_fu of
-- src/rtsp/codec/h265.rs with the sequence numbers of src/rtsp/rtp.rs; Rtp/Receiver has what the
-- RFCs make a receiver do. An RTP packet is the record of the arguments of build_packet, since the
-- crate rtp-types writes its bytes. The loop's fuel is the body's length. Rtp/Dispatch models
-- dispatch of src/rtsp/server/packetizer.rs, which packs an access unit, and Rtp/AccessUnit has
-- what arrives of it.
--
-- Nal models src/rtsp/codec/nal.rs: the splitting of an Annex-B stream and the filter on NAL types
-- and the guess of the codec.
--
-- Audio models the audio codecs: src/rtsp/codec/aac.rs (Audio/Aac), src/rtsp/transcode/adpcm.rs
-- with src/rtsp/transcode/resample.rs (Audio/Adpcm), and src/rtsp/codec/g711.rs (Audio/G711).
-- Samples are integers of Base/Int; what overlaps no bit is added.
--
-- Translate models src/stream_translate.rs, which turns media frames into RTSP frames: the state
-- and the effects (Translate/Model), video packets (Translate/Video) and audio packets
-- (Translate/Audio), on top of Nal, Audio and the frames of Rtp/Dispatch. Its other modules run it
-- over streams of packets, and one follows a P-frame to the RTP receiver.
--
-- Source models src/stream_source.rs, the driver that gives a packet of the camera to translate,
-- applies the effects and tells the gap policy, with src/audio_presence.rs and the tick that
-- replays a key frame. A lock is held for a step; whether a pacer's queue takes a frame is an
-- argument of the step. Source/Timed follows the timestamps, Source/Gap the gap, Source/Ready the
-- announced audio.
--
-- RtspAuth models src/rtsp/protocol/auth.rs, Basic and digest authentication, and authenticate of
-- src/rtsp/server/connection.rs. A string is the list of its code points, with the functions of
-- RtspAuth/Text, and slicing it at a byte inside a character panics, as it does in Rust. MD5 and
-- Base64 are parameters. RtspAuth/Header reads the header of a request. RtspAuth/Granted is about
-- who is accepted, with RtspAuth/Responds below it, RtspAuth/Unaligned about headers that end the
-- connection.
--
-- RtspSession models the states of src/rtsp/protocol/session.rs, with the clock and the random
-- identifier as arguments; RtspSession/Methods runs a session over its requests. MqttBackoff models
-- the back-off of src/mqtt_loop.rs, and MqttBackoff/Logs an outage.
--
-- RtspTransport models the parser of src/rtsp/protocol/transport.rs, the Transport header of a
-- SETUP, over the strings of RtspAuth/Text; RtspTransport/Bounds is about the size of what it
-- reads.
--
-- PortPool models src/rtsp/server/udp_pool.rs, the ports of RTSP sessions over UDP, with 501 rounds
-- of fuel for its 500 pairs; PortPool/Leases runs it over any calls. FrameBuffer models
-- src/rtsp/buffer.rs, the burst that a new RTSP client is sent first; FrameBuffer/Kept says which
-- P-frames it keeps.
--
-- Not modelled: everything that talks to sockets, timers, the broker and the file system, the XML
-- and TOML trees that serde derives, the command line, and so far the rest of the RTSP server with
-- its messages, the rest of the MQTT side and the camera tasks.
pub mod Base
pub mod Wire
pub mod Bcmedia
pub mod Bc
pub mod Poller
pub mod Udp
pub mod Bridging
pub mod Registry
pub mod WakeLock
pub mod Rtp
pub mod Nal
pub mod Audio
pub mod Translate
pub mod Source
pub mod RtspSession
pub mod RtspAuth
pub mod RtspTransport
pub mod MqttBackoff
pub mod PortPool
pub mod FrameBuffer
