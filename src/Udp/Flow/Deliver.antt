-- ===== src/Udp/Flow/Deliver.antt =====
-- A whole sequence of datagrams at the receiving side of udpsource.rs.
use mathlib.Core.Path.{ap₂}
use bairelay.Base.{
  ℕ, zero, suc, ◌+◌, ◌-◌, ◌≤◌, ◌<◌, ◌≡◌, ◌≢◌, refl, ap, ◌∙◌, List, [], ◌∷◌, ◌++◌, Option, none,
  some, length, All, arith,
}
use bairelay.Base.BTreeMap.{get, get-insert}
use bairelay.Udp.Model.{UdpData}
use bairelay.Udp.Flow.{UdpFlowState, new, handle_data, on_data, deliver, u32_max, reorder_cap}
use bairelay.Udp.Flow.Order.{
  segment, Inv, Drained, new-Inv, handle_data-Inv, drain_contiguous-Drained,
}

-- A packet of the peer that sends `stream`; other packets may claim any connection.
pub record Genuine (stream : ℕ → List ℕ) (d : UdpData) : Type 0 where
  pub payload : d.payload ≡ stream d.packet_id
  pub id_fits : d.packet_id ≤ u32_max

-- What `deliver` returns: the packets from `packets_want` on, in order.
pub record Delivered (stream : ℕ → List ℕ) (s : UdpFlowState)
    (r : Option (UdpFlowState × List (List ℕ))) : Type 0 where
  pub count : ℕ
  pub final : UdpFlowState
  pub result : r ≡ some (final, segment stream s.packets_want count)
  pub want : final.packets_want ≡ s.packets_want + count
  pub inv : Inv stream final

segment-add :
    (stream : ℕ → List ℕ) (k a b : ℕ)
    → segment stream k a ++ segment stream (k + a) b ≡ segment stream k (a + b)
segment-add stream k zero b = ap₂ (λ x y. segment stream x y) (omega arith) (omega arith)
segment-add stream k (suc a) b =
    let ih = segment-add stream (suc k) a b in
    let e : k + suc a ≡ suc k + a = omega arith in
    let f : suc a + b ≡ suc (a + b) = omega arith in rw (e, f) (ap (λ r. stream k ∷ r) ih)

handle_data-want :
    (s : UdpFlowState) (d : UdpData) → (handle_data s d).0.packets_want ≡ s.packets_want
unfolding handle_data
handle_data-want s d = ground arith

module _ (stream : ℕ → List ℕ) where
  pub on_data-Drained :
      (s : UdpFlowState) (d : UdpData)
      → Inv stream s
      → Genuine stream d
      → Drained stream (handle_data s d).0 [] (on_data s d)
  unfolding on_data
  on_data-Drained s d v g =
      drain_contiguous-Drained stream _ (handle_data-Inv stream s d v g.payload g.id_fits)

  pub deliver-Delivered :
      (ds : List UdpData) (s : UdpFlowState)
      → Inv stream s
      → All (Genuine stream) ds
      → Delivered stream s (deliver s ds)
  unfolding deliver
  deliver-Delivered [] s v g = record {
    count = 0;
    final = s;
    result = refl;
    want = omega arith;
    inv = v;
  }
  deliver-Delivered (d ∷ ds) s v (g, gs) =
      let one = on_data-Drained s d v g in
      let rest = deliver-Delivered ds one.final one.inv gs in
      let kept = handle_data-want s d in
      record {
        count = one.count + rest.count;
        final = rest.final;
        result =
            rw (one.result, deliver)
              (rw rest.result (
                rw (one.want, kept)
                  (ap (λ o. some (rest.final, o))
                    (segment-add stream s.packets_want one.count rest.count))));
        want = omega (arith, rest.want, one.want, kept);
        inv = rest.inv;
      }

  -- From a fresh connection, whatever datagrams of the peer are lost, repeated or reordered, the
  -- code returns, and the application is handed the packets 0, 1, 2, … of the peer in order and
  -- once each, up to packets_want.
  pub deliver_in_order :
      (client_id camera_id : ℕ) (ds : List UdpData)
      → All (Genuine stream) ds
      → (s : UdpFlowState) × (deliver (new client_id camera_id) ds
          ≡ some (s, segment stream 0 s.packets_want))
  deliver_in_order client_id camera_id ds g =
      let d =
        deliver-Delivered ds (new client_id camera_id) (new-Inv stream client_id camera_id) g in
      let e : d.final.packets_want ≡ d.count = unfold new in omega (arith, d.want) in
      (d.final, rw e (unfold new in d.result))

  found :
      (s : UdpFlowState) (d : UdpData)
      → d.connection_id ≡ s.client_id
      → d.packet_id ≡ s.packets_want
      → s.packets_want < u32_max
      → length s.received < reorder_cap
      → get (handle_data s d).0.packets_want (handle_data s d).0.received ≢ none
  unfolding handle_data
  found s d ours next fits room =
      ground (arith, get-insert d.packet_id s.packets_want d.payload s.received)

  -- In a state that satisfies the invariant of the receiver, a genuine packet that the
  -- application waits for is handed on at once, with all that was buffered behind it, while the
  -- reorder buffer has room and the number is below 2 ^ 32 - 1.
  pub on_data_progress :
      (s : UdpFlowState) (d : UdpData)
      → Inv stream s
      → Genuine stream d
      → d.connection_id ≡ s.client_id
      → d.packet_id ≡ s.packets_want
      → s.packets_want < u32_max
      → length s.received < reorder_cap
      → (n : ℕ) × (t : UdpFlowState) × (on_data s d
          ≡ some (t, segment stream s.packets_want (suc n)))
        × (t.packets_want ≡ s.packets_want + suc n)
        × (get t.packets_want t.received ≡ none)
  on_data_progress s d v g ours next fits room =
      let r = on_data-Drained s d v g in
      let more = r.progress (found s d ours next fits room) in
      let n = r.count - 1 in
      let e : r.count ≡ suc n = omega (arith, more) in
      let kept = handle_data-want s d in
      (
        n,
        r.final,
        r.result ∙ ap₂ (λ a b. some (r.final, segment stream a b)) kept e,
        omega (arith, r.want, kept, e),
        r.exhausted,
      )
