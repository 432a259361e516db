-- ===== src/Udp/Flow/Bound.antt =====
-- The memory and the loops of the receiving side of udpsource.rs, for any datagrams at all.
use bairelay.Base.{
  ℕ, zero, suc, ◌+◌, ◌%◌, ◌≤◌, ◌<◌, ◌≡◌, refl, List, [], ◌∷◌, ◌++◌, Option, some, length, inl, inr,
  Option-cases, arith,
}
use bairelay.Base.BTreeMap.{get, remove, length-insert-le, length-remove-lt}
use bairelay.Udp.Model.{UdpData}
use bairelay.Udp.Flow.{
  UdpFlowState, new, handle_data, drain_loop, drain_contiguous, on_data, deliver, u32_mod,
  reorder_cap,
}
use bairelay.Udp.Flow.Order.{handle_data_cases}

-- The code returns, and the reorder buffer has n entries at most.
record Returns (n : ℕ) (r : Option (UdpFlowState × List (List ℕ))) : Type 0 where
  final : UdpFlowState
  out : List (List ℕ)
  result : r ≡ some (final, out)
  bound : length final.received ≤ n

drain_loop-Returns :
    (fuel : ℕ) (s : UdpFlowState) (out : List (List ℕ))
    → length s.received < fuel
    → Returns (length s.received) (drain_loop fuel s out)
unfolding drain_loop
drain_loop-Returns zero s out h = elim h [ ]
drain_loop-Returns (suc fuel) s out h = elim (Option-cases (get s.packets_want s.received)) [
  | inl e ↦ record { final = s; out = out; result = rw (e, drain_loop); bound = omega arith }
  | inr (p, e) ↦
      let shorter = length-remove-lt s.packets_want s.received p e in
      let rec =
        drain_loop-Returns fuel
          (record s {
            received = remove s.packets_want s.received;
            packets_want = (s.packets_want + 1) % u32_mod;
          })
          (out ++ (p ∷ [])) (omega (arith, shorter)) in
      record {
        final = rec.final;
        out = rec.out;
        result = rw (e, drain_loop) rec.result;
        bound = omega (arith, rec.bound, shorter);
      }
]

handle_data_bound :
    (s : UdpFlowState) (d : UdpData)
    → length s.received ≤ reorder_cap
    → length (handle_data s d).0.received ≤ reorder_cap
handle_data_bound s d h = elim (handle_data_cases s d) [
  | inl left ↦ rw left h
  | inr t ↦ rw t.result (omega (arith, t.room, length-insert-le d.packet_id d.payload s.received))
]

deliver-Returns :
    (ds : List UdpData) (s : UdpFlowState)
    → length s.received ≤ reorder_cap
    → Returns reorder_cap (deliver s ds)
unfolding deliver on_data drain_contiguous
deliver-Returns [] s h = record { final = s; out = []; result = refl; bound = h }
deliver-Returns (d ∷ ds) s h =
    let s' = (handle_data s d).0 in
    let one = drain_loop-Returns (suc (length s'.received)) s' [] (omega arith) in
    let rest = deliver-Returns ds one.final (omega (arith, one.bound, handle_data_bound s d h)) in
    record {
      final = rest.final;
      out = one.out ++ rest.out;
      result = rw (one.result, deliver) (rw (rest.result, deliver));
      bound = rest.bound;
    }

-- Whatever a peer sends, genuine or not, every datagram is processed to the end, and the reorder
-- buffer holds 1024 packets at most.
pub deliver_bounded :
    (client_id camera_id : ℕ) (ds : List UdpData)
    → (s : UdpFlowState) × (out : List (List ℕ)) × (deliver (new client_id camera_id) ds
        ≡ some (s, out))
      × (length s.received ≤ reorder_cap)
deliver_bounded client_id camera_id ds =
    let r = deliver-Returns ds (new client_id camera_id) (unfold new in omega arith) in
    (r.final, r.out, r.result, r.bound)
