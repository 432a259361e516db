-- ===== src/Udp/Flow/Transfer.antt =====
-- A payload from one side of a connection to the other, over a link that loses nothing.
use bairelay.Base.{
  ℕ, suc, ◌+◌, ◌%◌, ◌≤◌, ◌<◌, ◌≡◌, refl, sym, ap, ◌∙◌, true, List, [], ◌∷◌, some, length, ==_refl,
  arith,
}
use native.Mathlib.Nat.{add-zero}
use bairelay.Base.BTreeMap.{get, insert, remove, retain}
use bairelay.Udp.Model.{UdpData}
use bairelay.Udp.Flow.{
  UdpFlowState, handle_data, drain_loop, drain_contiguous, on_data, deliver, enqueue_send, u32_max,
  u32_mod,
}
use bairelay.Udp.Flow.Send.{Numbered, concat, payloads, enqueue_send_lem}

-- The state after n packets, when nothing waits in the reorder buffer.
abbrev pub advanced : UdpFlowState → ℕ → UdpFlowState
advanced s n = record s { packets_want = s.packets_want + n; received = [] }

abbrev packet : ℕ → ℕ → List ℕ → UdpData
packet c k p = record { connection_id = c; packet_id = k; payload = p }

handle_data_next :
    (s : UdpFlowState) (n : ℕ) (p : List ℕ)
    → s.packets_want + n < u32_max
    → handle_data (advanced s n) (packet s.client_id (s.packets_want + n) p)
      ≡ (record (advanced s n) { received = (s.packets_want + n, p) ∷ [] }, true)
unfolding handle_data insert
handle_data_next s n p fits = ground arith

drain_next :
    (s : UdpFlowState) (n : ℕ) (p : List ℕ)
    → s.packets_want + n < u32_max
    → drain_contiguous (record (advanced s n) { received = (s.packets_want + n, p) ∷ [] })
      ≡ some (advanced s (suc n), p ∷ [])
unfolding drain_contiguous drain_loop get remove retain
drain_next s n p fits =
    let e : (s.packets_want + n + 1) % u32_mod ≡ s.packets_want + suc n = omega arith in
    rw (==_refl (s.packets_want + n), drain_loop)
      (rw (==_refl (s.packets_want + n), drain_loop) (rw (==_refl (s.packets_want + n), e)))

on_data_next :
    (s : UdpFlowState) (n : ℕ) (p : List ℕ)
    → s.packets_want + n < u32_max
    → on_data (advanced s n) (packet s.client_id (s.packets_want + n) p)
      ≡ some (advanced s (suc n), p ∷ [])
unfolding on_data
on_data_next s n p fits = rw (handle_data_next s n p fits, on_data) (drain_next s n p fits)

deliver_next :
    (ds : List UdpData) (s : UdpFlowState) (n : ℕ)
    → s.packets_want + n + length ds ≤ u32_max
    → Numbered s.client_id (s.packets_want + n) ds
    → deliver (advanced s n) ds ≡ some (advanced s (n + length ds), payloads ds)
unfolding deliver
deliver_next [] s n fits h = rw (add-zero n) refl
deliver_next (d ∷ ds) s n fits (ours, next, h) =
    let e : suc (s.packets_want + n) ≡ s.packets_want + suc n = omega arith in
    let f : suc n + length ds ≡ n + suc (length ds) = omega arith in
    let rec = deliver_next ds s (suc n) (omega arith) (rw e at h) in
    let same : d ≡ packet s.client_id (s.packets_want + n) d.payload = ground arith in
    let one = ap (on_data (advanced s n)) same ∙ on_data_next s n d.payload (omega arith) in
    rw (one, deliver) (rw (rec, deliver) (ap (λ m. some (advanced s m, payloads (d ∷ ds))) f))

-- A payload that one side enqueues and whose packets arrive in order at the other side, which
-- waits for the first of them with nothing buffered, is handed to the application there as its
-- bytes in order, and the state is ready for the next payload, while the packet numbers stay
-- below 2 ^ 32 - 1.
pub deliver-enqueue_send :
    (sender s : UdpFlowState) (payload : List ℕ)
    → s.received ≡ []
    → sender.camera_id ≡ s.client_id
    → sender.packets_sent ≡ s.packets_want
    → s.packets_want + length (enqueue_send sender payload).1 ≤ u32_max
    → (out : List (List ℕ)) × (deliver s (enqueue_send sender payload).1
        ≡ some (advanced s (length (enqueue_send sender payload).1), out))
      × (concat out ≡ payload)
deliver-enqueue_send sender s payload empty peer next fits =
    let ds = (enqueue_send sender payload).1 in
    let (whole, pieces, numbered, kept) = enqueue_send_lem sender payload (omega (arith, next)) in
    let clean : advanced s 0 ≡ s = ground arith in
    let h : Numbered s.client_id (s.packets_want + 0) ds =
      rw (sym peer, sym next, add-zero sender.packets_sent) numbered in
    let run = deliver_next ds s 0 (omega arith) h in
    let e : 0 + length ds ≡ length ds = omega arith in
    (
      payloads ds,
      ap (λ t. deliver t ds) (sym clean) ∙ run ∙ ap (λ m. some (advanced s m, payloads ds)) e,
      whole,
    )
