-- ===== src/Udp/Flow/Examples.antt =====
-- The theorems of the UDP transport on concrete connections.
use bairelay.Base.{
  ℕ, zero, suc, ◌+◌, ◌≤◌, ◌<◌, ◌≡◌, ◌≢◌, ◌⊎◌, refl, ap, List, [], ◌∷◌, none, some, length, arith,
}
use bairelay.Base.BTreeMap.{BTreeMap, get, contains_key, max_key, remove}
use bairelay.Udp.Model.{UdpAck, UdpData}
use bairelay.Udp.Flow.{
  UdpFlowState, new, enqueue_send, handle_ack, deliver, on_data, build_send_ack, reorder_cap,
  first_missing, remove_acked, u32_max, ack_bitmap_cap,
}
use bairelay.Udp.Flow.Order.{segment, Inv, new-Inv}
use bairelay.Udp.Flow.Deliver.{Genuine, deliver_in_order, on_data_progress}
use bairelay.Udp.Flow.Stall.{deliver_full, deliver_last}
use bairelay.Udp.Flow.Ack.{build_send_ack_total, handle_ack-build_send_ack}
use bairelay.Udp.Flow.Bound.{deliver_bounded}
use bairelay.Udp.Flow.Send.{concat}
use bairelay.Udp.Flow.Transfer.{advanced, deliver-enqueue_send}

-- The peer's packet k carries k and 5.
abbrev stream : ℕ → List ℕ
stream k = k ∷ 5 ∷ []

abbrev packet : ℕ → UdpData
packet k = record { connection_id = 3; packet_id = k; payload = stream k }

packet-Genuine : (k : ℕ) → k ≤ u32_max → Genuine stream (packet k)
packet-Genuine k h = record { payload = refl; id_fits = h }

-- Packets 1 and 0 arrive swapped, and packet 1 a second time.
abbrev swapped : List UdpData
swapped = packet 1 ∷ packet 0 ∷ packet 1 ∷ []

abbrev fresh : UdpFlowState
fresh = new 3 4

deliver_in_order_example :
    (s : UdpFlowState) × (deliver fresh swapped ≡ some (s, segment stream 0 s.packets_want))
deliver_in_order_example = deliver_in_order stream 3 4 swapped (
  packet-Genuine 1 (omega arith),
  (packet-Genuine 0 (omega arith), (packet-Genuine 1 (omega arith), tt)),
)

on_data_progress_example :
    (n : ℕ) × (t : UdpFlowState) × (on_data fresh (packet 0)
      ≡ some (t, segment stream fresh.packets_want (suc n)))
    × (t.packets_want ≡ fresh.packets_want + suc n)
    × (get t.packets_want t.received ≡ none)
unfolding new
on_data_progress_example =
    on_data_progress stream fresh (packet 0) (new-Inv stream 3 4) (packet-Genuine 0 (omega arith))
      refl refl (omega arith) (omega arith)

-- A reorder buffer with the n packets from 1 on.
abbrev filled : ℕ → BTreeMap (List ℕ)
filled zero = []
filled (suc n) = (suc n, stream (suc n)) ∷ filled n

length-filled : (n : ℕ) → length (filled n) ≡ n
length-filled zero = refl
length-filled (suc n) = ap suc (length-filled n)

filled_missing : (n : ℕ) → get 0 (filled n) ≡ none
unfolding get
filled_missing zero = refl
filled_missing (suc n) = ground (arith, filled_missing n)

abbrev full : UdpFlowState
full = record fresh { received = filled 1024 }

deliver_full_example : deliver full (packet 0 ∷ packet 2000 ∷ []) ≡ some (full, [])
deliver_full_example =
    deliver_full full (packet 0 ∷ packet 2000 ∷ []) (omega (arith, length-filled 1024))
      (unfold new in filled_missing 1024)

abbrev at_end : UdpFlowState
at_end = record fresh { packets_want = 4294967295; received = [] }

at_end-Inv : Inv stream at_end
unfolding get
at_end-Inv = record { want_fits = omega arith; holds = λ k p e. cc }

deliver_last_example : deliver at_end (packet 4294967295 ∷ packet 0 ∷ []) ≡ some (at_end, [])
deliver_last_example =
    deliver_last stream at_end (packet 4294967295 ∷ packet 0 ∷ []) at_end-Inv refl
      (omega arith, (omega arith, tt))

build_send_ack_total_example :
    (a : UdpAck) × (build_send_ack fresh ≡ some a) × (length a.payload ≤ ack_bitmap_cap)
build_send_ack_total_example = build_send_ack_total stream fresh (new-Inv stream 3 4)

-- Packet 0 was handed on, packet 1 is missing and packet 2 is buffered.
abbrev gap : UdpFlowState
gap = record fresh { packets_want = 1; received = (2, stream 2) ∷ [] }

gap-Inv : Inv stream gap
unfolding get
gap-Inv = record { want_fits = omega arith; holds = λ k p e. ground arith }

abbrev gap_ack : UdpAck
gap_ack = record {
  connection_id = 4;
  group_id = 0;
  packet_id = 0;
  maybe_latency = 0;
  payload = 0 ∷ 1 ∷ [];
}

-- Packets 0, 1 and 2 await their acknowledgement.
abbrev unacked : UdpFlowState
unacked = record fresh {
  sent = (0, packet 0) ∷ (1, packet 1) ∷ (2, packet 2) ∷ [];
  packets_sent = 3;
}

handle_ack-build_send_ack_example : (2 < gap.packets_want) ⊎ (get 2 gap.received ≢ none)
unfolding new get handle_ack build_send_ack first_missing contains_key max_key remove_acked remove
handle_ack-build_send_ack_example =
    handle_ack-build_send_ack stream gap unacked gap_ack 0 2 gap-Inv refl (λ e. cc) refl

deliver-enqueue_send_example :
    (out : List (List ℕ)) × (deliver (new 4 3) (enqueue_send fresh (7 ∷ 8 ∷ [])).1
      ≡ some (advanced (new 4 3) (length (enqueue_send fresh (7 ∷ 8 ∷ [])).1), out))
    × (concat out ≡ 7 ∷ 8 ∷ [])
unfolding new enqueue_send
deliver-enqueue_send_example =
    deliver-enqueue_send fresh (new 4 3) (7 ∷ 8 ∷ []) refl refl refl (omega arith)

deliver_bounded_example :
    (s : UdpFlowState) × (out : List (List ℕ)) × (deliver (new 3 4) swapped ≡ some (s, out))
    × (length s.received ≤ reorder_cap)
deliver_bounded_example = deliver_bounded 3 4 swapped
