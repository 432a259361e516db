-- ===== src/Udp/Flow/Send.antt =====
-- The sending side of udpsource.rs: what `enqueue_send` makes of a payload.
use bairelay.Base.{
  ℕ, zero, suc, ◌+◌, ◌%◌, ◌≤◌, ◌<◌, ◌≡◌, refl, ap, subst, List, [], ◌∷◌, ◌++◌, some, length, map,
  drop, take-append-drop, length-drop, length-take, arith, All,
}
use bairelay.Base.BTreeMap.{get, get-insert}
use bairelay.Udp.Model.{UdpData}
use bairelay.Udp.Flow.{
  UdpFlowState, chunks, enqueue_chunk, enqueue_chunks, enqueue_send, u32_max, u32_mod,
}

abbrev pub concat : List (List ℕ) → List ℕ
concat [] = []
concat (c ∷ cs) = c ++ concat cs

-- A chunk is not empty and has n bytes at most.
abbrev pub Bounded : ℕ → List ℕ → Type 0
Bounded n c = (1 ≤ length c) × (length c ≤ n)

concat-chunks :
    (fuel n : ℕ) (xs : List ℕ) → 1 ≤ n → length xs ≤ fuel → concat (chunks fuel n xs) ≡ xs
unfolding chunks
concat-chunks zero n [] pos h = refl
concat-chunks zero n (x ∷ xs) pos h = elim h [ ]
concat-chunks (suc fuel) n [] pos h = refl
concat-chunks (suc fuel) n (x ∷ xs) pos h =
    rw (concat-chunks fuel n (drop n (x ∷ xs)) pos (omega (arith, length-drop n (x ∷ xs))))
      (take-append-drop n (x ∷ xs))

chunks-Bounded : (fuel n : ℕ) (xs : List ℕ) → 1 ≤ n → All (Bounded n) (chunks fuel n xs)
unfolding chunks
chunks-Bounded zero n xs pos = tt
chunks-Bounded (suc fuel) n [] pos = tt
chunks-Bounded (suc fuel) n (x ∷ xs) pos = (
  (omega (arith, length-take n (x ∷ xs)), omega (arith, length-take n (x ∷ xs))),
  chunks-Bounded fuel n (drop n (x ∷ xs)) pos,
)

-- Packets with consecutive numbers from k on, for one connection.
abbrev pub Numbered : ℕ → ℕ → List UdpData → Type 0
Numbered c k [] = Unit {0}
Numbered c k (d ∷ ds) = (d.connection_id ≡ c) × (d.packet_id ≡ k) × Numbered c (suc k) ds

abbrev pub payloads : List UdpData → List (List ℕ)
payloads = map (λ d. d.payload)

payloads-enqueue_chunks :
    (s : UdpFlowState) (cs : List (List ℕ)) → payloads (enqueue_chunks s cs).1 ≡ cs
unfolding enqueue_chunks
payloads-enqueue_chunks s [] = refl
payloads-enqueue_chunks s (c ∷ cs) = ap (◌∷◌ c) (payloads-enqueue_chunks (enqueue_chunk s c).0 cs)

length-enqueue_chunks :
    (s : UdpFlowState) (cs : List (List ℕ)) → length (enqueue_chunks s cs).1 ≡ length cs
unfolding enqueue_chunks
length-enqueue_chunks s [] = refl
length-enqueue_chunks s (c ∷ cs) = ap suc (length-enqueue_chunks (enqueue_chunk s c).0 cs)

enqueue_chunks-Numbered :
    (s : UdpFlowState) (cs : List (List ℕ))
    → s.packets_sent + length cs ≤ u32_max
    → Numbered s.camera_id s.packets_sent (enqueue_chunks s cs).1
unfolding enqueue_chunks
enqueue_chunks-Numbered s [] h = tt
enqueue_chunks-Numbered s (c ∷ cs) h =
    let rec = enqueue_chunks-Numbered (enqueue_chunk s c).0 cs (omega arith) in
    let e : (s.packets_sent + 1) % u32_mod ≡ suc s.packets_sent = omega arith in
    (
      refl,
      refl,
      subst (λ k. Numbered s.camera_id k (enqueue_chunks (enqueue_chunk s c).0 cs).1) e rec,
    )

-- What was sent before stays there for a retransmission.
enqueue_chunks_keeps :
    (s : UdpFlowState) (cs : List (List ℕ)) (k : ℕ)
    → s.packets_sent + length cs ≤ u32_max
    → k < s.packets_sent
    → get k (enqueue_chunks s cs).0.sent ≡ get k s.sent
unfolding enqueue_chunks enqueue_chunk
enqueue_chunks_keeps s [] k h lt = refl
enqueue_chunks_keeps s (c ∷ cs) k h lt =
    let rec = enqueue_chunks_keeps (enqueue_chunk s c).0 cs k (omega arith) (omega arith) in
    ground (arith, rec, get-insert s.packets_sent k (enqueue_chunk s c).1 s.sent)

abbrev pub KeptIn : UdpFlowState → UdpData → Type 0
KeptIn s d = get d.packet_id s.sent ≡ some d

enqueue_chunks-KeptIn :
    (s : UdpFlowState) (cs : List (List ℕ))
    → s.packets_sent + length cs ≤ u32_max
    → All (KeptIn (enqueue_chunks s cs).0) (enqueue_chunks s cs).1
unfolding enqueue_chunks enqueue_chunk
enqueue_chunks-KeptIn s [] h = tt
enqueue_chunks-KeptIn s (c ∷ cs) h =
    let keeps =
      enqueue_chunks_keeps (enqueue_chunk s c).0 cs s.packets_sent (omega arith) (omega arith) in
    let d = (enqueue_chunk s c).1 in
    (
      ground (arith, keeps, get-insert s.packets_sent s.packets_sent d s.sent),
      enqueue_chunks-KeptIn (enqueue_chunk s c).0 cs (omega arith),
    )

-- The packets of enqueue_send carry the payload in order, in pieces of 1 to 1330 bytes, under
-- consecutive numbers, and each of them is kept for a retransmission, while the numbers stay
-- below 2 ^ 32 - 1.
pub enqueue_send_lem :
    (s : UdpFlowState) (payload : List ℕ)
    → s.packets_sent + length (enqueue_send s payload).1 ≤ u32_max
    → (concat (payloads (enqueue_send s payload).1) ≡ payload)
      × All (Bounded 1330) (payloads (enqueue_send s payload).1)
      × Numbered s.camera_id s.packets_sent (enqueue_send s payload).1
      × All (KeptIn (enqueue_send s payload).0) (enqueue_send s payload).1
unfolding enqueue_send
enqueue_send_lem s payload fits =
    let cs = chunks (length payload) 1330 payload in
    let e = payloads-enqueue_chunks s cs in
    let n = length-enqueue_chunks s cs in
    (
      rw e (concat-chunks (length payload) 1330 payload (omega arith) (omega arith)),
      rw e (chunks-Bounded (length payload) 1330 payload (omega arith)),
      enqueue_chunks-Numbered s cs (omega (arith, n)),
      enqueue_chunks-KeptIn s cs (omega (arith, n)),
    )
