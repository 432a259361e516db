-- ===== src/Udp/Flow.antt =====
-- `UdpFlowState` and `AckLatency` of src/baichuan/bc_protocol/connection/udpsource.rs: what makes a
-- reliable ordered stream out of datagrams. Times are nanoseconds. The two loops run on fuel, one
-- round more than the reorder buffer has entries: each round takes or passes one of them.
pub mod Latency
pub mod Order
pub mod Bound
pub mod Deliver
pub mod Stall
pub mod Marks
pub mod Ack
pub mod Send
pub mod Transfer
mod Examples
use bairelay.Base.{
  ℕ, zero, suc, ◌+◌, ◌-◌, ◌*◌, ◌%◌, min, Bool, true, false, not, ◌&&◌, List, [], ◌∷◌, ◌++◌, Option,
  none, some, length, take, drop, map, ltb, leb, ◌==◌, if◌then◌else◌,
}
use bairelay.Base.BTreeMap.{BTreeMap, get, contains_key, insert, retain, remove, max_key}
use bairelay.Udp.Model.{UdpAck, UdpData, empty_ack}
use Latency.{AckLatency, feed_ack}

abbrev pub mtu : ℕ
mtu = 1350

abbrev pub udpdata_header_size : ℕ
udpdata_header_size = 20

abbrev pub reorder_cap : ℕ
reorder_cap = 1024

abbrev pub u32_max : ℕ
u32_max = 4294967295

abbrev pub u32_mod : ℕ
u32_mod = 4294967296

pub record UdpFlowState : Type 0 where
  pub client_id : ℕ
  pub camera_id : ℕ
  pub packets_sent : ℕ
  pub packets_want : ℕ
  pub sent : BTreeMap UdpData
  pub received : BTreeMap (List ℕ)
  pub ack_latency : AckLatency

unfoldable pub new : ℕ → ℕ → UdpFlowState
new client_id camera_id = record {
  client_id = client_id;
  camera_id = camera_id;
  packets_sent = 0;
  packets_want = 0;
  sent = [];
  received = [];
  ack_latency = record {
    current_values = [];
    last_receive_time = none;
    display_value = 0;
    last_display_time = none;
  };
}

-- `payload.chunks(n)`: the fuel is the payload's length, since a chunk takes a byte at least.
unfoldable pub chunks : ℕ → ℕ → List ℕ → List (List ℕ)
chunks zero n xs = []
chunks (suc fuel) n [] = []
chunks (suc fuel) n (x ∷ xs) = take n (x ∷ xs) ∷ chunks fuel n (drop n (x ∷ xs))

-- The body of the loop in `enqueue_send`.
unfoldable pub enqueue_chunk : UdpFlowState → List ℕ → UdpFlowState × UdpData
enqueue_chunk s chunk =
    let udp_data : UdpData = record {
      connection_id = s.camera_id;
      packet_id = s.packets_sent;
      payload = chunk;
    } in
    (
      record s {
        packets_sent = (s.packets_sent + 1) % u32_mod;
        sent = insert s.packets_sent udp_data s.sent;
      },
      udp_data,
    )

unfoldable pub enqueue_chunks : UdpFlowState → List (List ℕ) → UdpFlowState × List UdpData
unfolding enqueue_chunk
enqueue_chunks s [] = (s, [])
enqueue_chunks s (c ∷ cs) =
    let (s', d) = enqueue_chunk s c in let (s'', ds) = enqueue_chunks s' cs in (s'', d ∷ ds)

unfoldable pub enqueue_send : UdpFlowState → List ℕ → UdpFlowState × List UdpData
unfolding enqueue_chunks chunks
enqueue_send s payload =
    enqueue_chunks s (chunks (length payload) (mtu - udpdata_header_size) payload)

unfoldable pub handle_data : UdpFlowState → UdpData → UdpFlowState × Bool
handle_data s d =
    if not (d.connection_id == s.client_id)
    then (s, false)
    else if d.packet_id == u32_max
    then (s, false)
    else if leb s.packets_want d.packet_id && ltb (length s.received) reorder_cap
    then (record s { received = insert d.packet_id d.payload s.received }, true)
    else (s, false)

-- The loop over the bitmap; `idx` is the index of the list's head.
unfoldable pub remove_acked : ℕ → ℕ → List ℕ → BTreeMap UdpData → BTreeMap UdpData
remove_acked start idx [] sent = sent
remove_acked start idx (value ∷ values) sent =
    remove_acked start (idx + 1) values
      (if ltb 0 value then remove ((start + 1 + idx) % u32_mod) sent else sent)

unfoldable pub handle_ack : UdpFlowState → UdpAck → ℕ → UdpFlowState
handle_ack s a now =
    if a.packet_id == u32_max
    then record s { ack_latency = feed_ack s.ack_latency now }
    else if ltb u32_max (a.packet_id + 1 + length a.payload)
    then record s {
      sent = retain (λ k. ltb a.packet_id k) s.sent;
      ack_latency = feed_ack s.ack_latency now;
    }
    else record s {
      sent = remove_acked a.packet_id 0 a.payload (retain (λ k. ltb a.packet_id k) s.sent);
      ack_latency = feed_ack s.ack_latency now;
    }

-- `none` means that the fuel ran out.
unfoldable pub drain_loop : ℕ → UdpFlowState → List (List ℕ) → Option (UdpFlowState × List (List ℕ))
drain_loop zero s out = none
drain_loop (suc fuel) s out = elim (get s.packets_want s.received) [
  | none ↦ some (s, out)
  | some payload ↦
      drain_loop fuel
        (record s {
          received = remove s.packets_want s.received;
          packets_want = (s.packets_want + 1) % u32_mod;
        })
        (out ++ (payload ∷ []))
]

unfoldable pub drain_contiguous : UdpFlowState → Option (UdpFlowState × List (List ℕ))
unfolding drain_loop
drain_contiguous s = drain_loop (suc (length s.received)) s []

-- The `BcUdp::Data` arm of `UdpPayloadInner::run`, and the drain that follows it.
unfoldable pub on_data : UdpFlowState → UdpData → Option (UdpFlowState × List (List ℕ))
on_data s d = drain_contiguous (handle_data s d).0

-- Datagrams one after the other, with what the application is handed.
unfoldable pub deliver : UdpFlowState → List UdpData → Option (UdpFlowState × List (List ℕ))
deliver s [] = some (s, [])
deliver s (d ∷ ds) = elim (on_data s d) [
  | none ↦ none
  | some (s', out) ↦ elim (deliver s' ds) [
    | none ↦ none
    | some (s'', more) ↦ some (s'', out ++ more)
  ]
]

-- `while self.received.contains_key(&first_missing) { first_missing.saturating_add(1) }`
unfoldable pub first_missing : ℕ → BTreeMap (List ℕ) → ℕ → Option ℕ
first_missing zero received k = none
first_missing (suc fuel) received k = elim (contains_key k received) [
  | true ↦ first_missing fuel received (min (k + 1) u32_max)
  | false ↦ some k
]

abbrev pub ack_bitmap_cap : ℕ
ack_bitmap_cap = reorder_cap * 4

-- `for i in from..from + n { push(received.contains_key(&i) as u8) }`
unfoldable pub bitmap : BTreeMap (List ℕ) → ℕ → ℕ → List ℕ
bitmap received from zero = []
bitmap received from (suc n) =
    (if contains_key from received then 1 else 0) ∷ bitmap received (from + 1) n

unfoldable pub missing_ids : BTreeMap (List ℕ) → ℕ → List ℕ
unfolding bitmap
missing_ids received first = elim (max_key received) [
  | none ↦ []
  | some end ↦
      bitmap received first
        (min (min (end + 1) u32_max) (min (first + ack_bitmap_cap) u32_max) - first)
]

unfoldable pub build_send_ack : UdpFlowState → Option UdpAck
unfolding missing_ids
build_send_ack s =
    if ltb 0 s.packets_want
    then elim (first_missing (suc (length s.received)) s.received s.packets_want) [
      | none ↦ none
      | some first ↦ some (record {
        connection_id = s.camera_id;
        group_id = 0;
        packet_id = first - 1;
        maybe_latency = s.ack_latency.display_value;
        payload = missing_ids s.received first;
      })
    ]
    else some (empty_ack s.camera_id)

unfoldable pub resend_packets : UdpFlowState → List UdpData
resend_packets s = map (λ e. e.1) s.sent
