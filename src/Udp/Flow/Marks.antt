-- ===== src/Udp/Flow/Marks.antt =====
-- What `handle_ack` forgets because of an acknowledgement.
use bairelay.Base.{
  ℕ, suc, ◌+◌, ◌-◌, ◌%◌, ◌≤◌, ◌<◌, ◌≡◌, ◌≢◌, ◌⊎◌, inl, inr, false, ◌&&◌, List, [], ◌∷◌, none,
  length, get_or, ltb, ◌==◌, if◌then◌else◌, Bool-cases, arith,
}
use bairelay.Base.BTreeMap.{BTreeMap, get, remove, retain, get-retain, get-remove}
use bairelay.Udp.Model.{UdpAck, UdpData}
use bairelay.Udp.Flow.{UdpFlowState, handle_ack, remove_acked, u32_max, u32_mod}

-- An entry that the bitmap loop drops is marked in the bitmap.
remove_acked_marks :
    (vs : List ℕ) (start idx : ℕ) (m : BTreeMap UdpData) (k : ℕ)
    → start + 1 + idx + length vs ≤ u32_max
    → get k m ≢ none
    → get k (remove_acked start idx vs m) ≡ none
    → (start + 1 + idx ≤ k) × (0 < get_or vs (k - (start + 1 + idx)) 0)
unfolding remove_acked
remove_acked_marks [] start idx m k fits old gone = absurd (old gone)
remove_acked_marks (v ∷ vs) start idx m k fits old gone =
    elim (Bool-cases (ltb 0 v && (k == start + 1 + idx))) [
      | inl here ↦
          let hit : (k ≡ start + 1 + idx) × (0 < v) = ground arith in
          let e : k - (start + 1 + idx) ≡ 0 = omega arith in (omega arith, rw e hit.1)
      | inr other ↦
          let rest = remove_acked_marks vs start (idx + 1) _ k (omega arith) (kept other) gone in
          let e : k - (start + 1 + idx) ≡ suc (k - (start + 1 + (idx + 1))) =
            omega (arith, rest.0) in
          (omega (arith, rest.0), rw e rest.1)
    ]
  where
    kept :
        (ltb 0 v && (k == start + 1 + idx)) ≡ false
        → get k (if ltb 0 v then remove ((start + 1 + idx) % u32_mod) m else m) ≢ none
    kept other = ground (arith, get-remove ((start + 1 + idx) % u32_mod) k m)

bitmap_marks :
    (vs : List ℕ) (start : ℕ) (m : BTreeMap UdpData) (k : ℕ)
    → start + 1 + length vs ≤ u32_max
    → get k m ≢ none
    → get k (remove_acked start 0 vs m) ≡ none
    → (start + 1 ≤ k) × (0 < get_or vs (k - (start + 1)) 0)
bitmap_marks vs start m k fits old gone =
    let (lo, hit) = remove_acked_marks vs start 0 m k (omega arith) old gone in
    let e : k - (start + 1) ≡ k - (start + 1 + 0) = omega arith in (omega (arith, lo), rw e hit)

-- What an acknowledgement makes the sender forget, it acknowledges: by its number or by its bitmap.
pub handle_ack_marks :
    (s : UdpFlowState) (a : UdpAck) (now k : ℕ)
    → get k s.sent ≢ none
    → get k (handle_ack s a now).sent ≡ none
    → (a.packet_id ≢ u32_max)
      × ((k ≤ a.packet_id)
          ⊎ ((a.packet_id + 1 ≤ k) × (0 < get_or a.payload (k - (a.packet_id + 1)) 0)))
unfolding handle_ack
handle_ack_marks s a now k old gone = ground (
  arith,
  get-retain (λ j. ltb a.packet_id j) k s.sent,
  bitmap_marks a.payload a.packet_id (retain (λ j. ltb a.packet_id j) s.sent) k,
)
