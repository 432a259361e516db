-- ===== src/Udp/Flow/Stall.antt =====
-- States of udpsource.rs that no datagram changes: a full reorder buffer, and the last packet number.
use mathlib.Core.Path.{subst₂}
use bairelay.Base.{
  ℕ, zero, suc, ◌+◌, ◌≤◌, ◌<◌, ◌≡◌, refl, true, false, List, [], ◌∷◌, none, some, length, All, inl,
  inr, Option-cases, arith,
}
use bairelay.Base.BTreeMap.{get, insert, get-insert, length-insert_new}
use bairelay.Udp.Model.{UdpData}
use bairelay.Udp.Flow.{
  UdpFlowState, new, handle_data, drain_loop, drain_contiguous, on_data, deliver, u32_max,
  reorder_cap,
}
use bairelay.Udp.Flow.Order.{Inv}

drain_nothing :
    (s : UdpFlowState) → get s.packets_want s.received ≡ none → drain_contiguous s ≡ some (s, [])
unfolding drain_contiguous drain_loop
drain_nothing s e = rw (e, drain_loop)

-- A state that no packet of a kind changes, and from which nothing can be drained.
record IsStuck (P : UdpData → Type 0) (s : UdpFlowState) : Type 0 where
  refuses : (d : UdpData) → P d → handle_data s d ≡ (s, false)
  missing : get s.packets_want s.received ≡ none

IsStuck-deliver :
    (P : UdpData → Type 0) (s : UdpFlowState) (ds : List UdpData)
    → IsStuck P s
    → All P ds
    → deliver s ds ≡ some (s, [])
unfolding deliver on_data
IsStuck-deliver P s [] v h = refl
IsStuck-deliver P s (d ∷ ds) v (h, hs) =
    rw (v.refuses d h, on_data, deliver)
      (rw (drain_nothing s v.missing, deliver) (rw (IsStuck-deliver P s ds v hs, deliver)))

All-Unit : (ds : List UdpData) → All (λ d. Unit {0}) ds
All-Unit [] = tt
All-Unit (d ∷ ds) = (tt, All-Unit ds)

-- With the reorder buffer full and the next packet missing, no further datagram is taken, not
-- even that packet, and nothing more is ever handed to the application.
pub deliver_full :
    (s : UdpFlowState) (ds : List UdpData)
    → reorder_cap ≤ length s.received
    → get s.packets_want s.received ≡ none
    → deliver s ds ≡ some (s, [])
deliver_full s ds full missing =
    IsStuck-deliver (λ d. Unit {0}) s ds
      (record { refuses = λ d u. unfold handle_data in ground arith; missing = missing })
      (All-Unit ds)

-- In a state that satisfies the invariant of the receiver, once 2 ^ 32 - 1 packets of the peer
-- have been handed on, nothing more is, whatever arrives.
pub deliver_last :
    (stream : ℕ → List ℕ) (s : UdpFlowState) (ds : List UdpData)
    → Inv stream s
    → s.packets_want ≡ u32_max
    → All (λ (d : UdpData). d.packet_id ≤ u32_max) ds
    → deliver s ds ≡ some (s, [])
deliver_last stream s ds v last fits =
    IsStuck-deliver (λ d. d.packet_id ≤ u32_max) s ds
      (record {
        refuses = λ d h. unfold handle_data in ground arith;
        missing = elim (Option-cases (get s.packets_want s.received)) [
          | inl e ↦ e
          | inr (p, e) ↦ absurd (omega (arith, (v.holds s.packets_want p e).below))
        ];
      })
      fits

-- The peer's packets k, k + 1, …, n of them.
abbrev pub early : (ℕ → List ℕ) → ℕ → ℕ → ℕ → List UdpData
early stream c k zero = []
early stream c k (suc n) =
    record { connection_id = c; packet_id = k; payload = stream k } ∷ early stream c (suc k) n

-- Packet 0 is missing, and the j packets before packet k are buffered.
record Waiting (c k j : ℕ) (s : UdpFlowState) : Type 0 where
  client_id : s.client_id ≡ c
  want : s.packets_want ≡ 0
  buffered : length s.received ≡ j
  fresh : (i : ℕ) → k ≤ i → get i s.received ≡ none
  missing : get 0 s.received ≡ none

module _ (stream : ℕ → List ℕ) where
  abbrev with_packet : UdpFlowState → ℕ → UdpFlowState
  with_packet s k = record s { received = insert k (stream k) s.received }

  Waiting-with_packet :
      (c k j : ℕ) (s : UdpFlowState)
      → 1 ≤ k
      → Waiting c k j s
      → Waiting c (suc k) (suc j) (with_packet s k)
  Waiting-with_packet c k j s pos w = record {
    client_id = w.client_id;
    want = w.want;
    buffered =
        omega
          (arith, w.buffered, length-insert_new k (stream k) s.received (w.fresh k (omega arith)));
    fresh = λ i h. ground (arith, get-insert k i (stream k) s.received, w.fresh i (omega arith));
    missing = ground (arith, get-insert k 0 (stream k) s.received, w.missing);
  }

  Waiting-on_data :
      (c k j : ℕ) (s : UdpFlowState)
      → 1 ≤ k
      → k < u32_max
      → j < reorder_cap
      → Waiting c k j s
      → on_data s (record { connection_id = c; packet_id = k; payload = stream k })
        ≡ some (with_packet s k, [])
  unfolding on_data
  Waiting-on_data c k j s pos fits room w =
      let taken : handle_data s (record { connection_id = c; packet_id = k; payload = stream k })
          ≡ (with_packet s k, true) =
        unfold handle_data in ground (arith, w.client_id, w.want, w.buffered) in
      let next = Waiting-with_packet c k j s pos w in
      rw (taken, on_data) (drain_nothing (with_packet s k) (rw next.want next.missing))

  Waiting-deliver :
      (n c k j : ℕ) (s : UdpFlowState)
      → 1 ≤ k
      → k + n ≤ u32_max
      → j + n ≤ reorder_cap
      → Waiting c k j s
      → (t : UdpFlowState) × (deliver s (early stream c k n) ≡ some (t, []))
        × Waiting c (k + n) (j + n) t
  unfolding deliver
  Waiting-deliver zero c k j s pos fits room w = (
    s,
    refl,
    record {
      client_id = w.client_id;
      want = w.want;
      buffered = omega (arith, w.buffered);
      fresh = λ i h. w.fresh i (omega arith);
      missing = w.missing;
    },
  )
  Waiting-deliver (suc n) c k j s pos fits room w =
      let rec =
        Waiting-deliver n c (suc k) (suc j) (with_packet s k) (omega arith) (omega arith)
          (omega arith) (Waiting-with_packet c k j s pos w) in
      (
        rec.0,
        rw (Waiting-on_data c k j s pos (omega arith) (omega arith) w, deliver)
            (rw (rec.1, deliver)),
        subst₂ (λ a b. Waiting c a b rec.0) (omega arith) (omega arith) rec.2,
      )

  new-Waiting : (c camera_id : ℕ) → Waiting c 1 0 (new c camera_id)
  unfolding new get
  new-Waiting c camera_id = record {
    client_id = refl;
    want = refl;
    buffered = refl;
    fresh = λ i h. refl;
    missing = refl;
  }

  -- A connection whose first datagram is lost while the next 1024 arrive stops for good: those
  -- are buffered, and after them nothing is ever handed on, the retransmitted first one
  -- included.
  deliver_lost_first :
      (client_id camera_id : ℕ) (ds : List UdpData)
      → (s : UdpFlowState) × (deliver (new client_id camera_id) (early stream client_id 1 1024)
          ≡ some (s, []))
        × (deliver s ds ≡ some (s, []))
  deliver_lost_first client_id camera_id ds =
      let r =
        Waiting-deliver 1024 client_id 1 0 (new client_id camera_id) (omega arith) (omega arith)
          (omega arith) (new-Waiting client_id camera_id) in
      (r.0, r.1, deliver_full r.0 ds (omega (arith, r.2.buffered)) (rw r.2.want r.2.missing))
