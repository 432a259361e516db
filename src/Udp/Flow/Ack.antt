-- ===== src/Udp/Flow/Ack.antt =====
-- Acknowledgements: what `build_send_ack` reports.
use bairelay.Base.{
  ℕ, zero, suc, ◌+◌, ◌-◌, ◌≤◌, ◌<◌, ◌≡◌, ◌≢◌, ◌⊎◌, inl, inr, refl, sym, ap, ◌∙◌, min, List, Option,
  none, some, length, get_or, ltb, ◌==◌, if◌then◌else◌, Bool-cases, Option-cases, ltb→lt, some_eq,
  arith,
}
use bairelay.Base.BTreeMap.{
  BTreeMap, get, remove, get-remove, length-remove-lt, contains_key-get, max_key,
}
use bairelay.Udp.Model.{UdpAck, empty_ack}
use bairelay.Udp.Flow.{
  UdpFlowState, handle_ack, first_missing, bitmap, missing_ids, build_send_ack, u32_max,
  ack_bitmap_cap,
}
use bairelay.Udp.Flow.Order.{Inv}
use bairelay.Udp.Flow.Marks.{handle_ack_marks}

bitmap_truthful :
    (n : ℕ) (m : BTreeMap (List ℕ)) (from i : ℕ)
    → 0 < get_or (bitmap m from n) i 0
    → get (from + i) m ≢ none
unfolding bitmap
bitmap_truthful zero m from i h = absurd (omega arith)
bitmap_truthful (suc n) m from zero h =
    let e : from + 0 ≡ from = omega arith in rw e (ground (arith, contains_key-get from m))
bitmap_truthful (suc n) m from (suc i) h =
    let e : from + suc i ≡ from + 1 + i = omega arith in rw e (bitmap_truthful n m (from + 1) i h)

missing_ids_truthful :
    (m : BTreeMap (List ℕ)) (first i : ℕ)
    → 0 < get_or (missing_ids m first) i 0
    → get (first + i) m ≢ none
unfolding missing_ids
missing_ids_truthful m first i h = elim (Option-cases (max_key m)) [
  | inl e ↦ absurd (omega (arith, rw (e, missing_ids) at h))
  | inr (end, e) ↦ bitmap_truthful _ m first i (rw (e, missing_ids) at h)
]

length-bitmap : (n : ℕ) (m : BTreeMap (List ℕ)) (from : ℕ) → length (bitmap m from n) ≡ n
unfolding bitmap
length-bitmap zero m from = refl
length-bitmap (suc n) m from = ap suc (length-bitmap n m (from + 1))

length-missing_ids :
    (m : BTreeMap (List ℕ)) (first : ℕ) → length (missing_ids m first) ≤ ack_bitmap_cap
unfolding missing_ids
length-missing_ids m first = elim (Option-cases (max_key m)) [
  | inl e ↦ rw (e, missing_ids) (omega arith)
  | inr (end, e) ↦ rw (e, missing_ids) (omega (arith, length-bitmap _ m first))
]

-- The first number from k on that is not in the buffer.
record FirstMissing (m : BTreeMap (List ℕ)) (k : ℕ) (o : Option ℕ) : Type 0 where
  first : ℕ
  result : o ≡ some first
  from : k ≤ first
  absent : get first m ≡ none
  present : (i : ℕ) → k ≤ i → i < first → get i m ≢ none

abbrev Below : BTreeMap (List ℕ) → Type 0
Below m = (i : ℕ) → get i m ≢ none → i < u32_max

-- `rest` holds the entries of `m` that the loop has not passed yet: its length bounds the rounds left.
first_missing_lem :
    (fuel : ℕ) (m rest : BTreeMap (List ℕ)) (k : ℕ)
    → length rest < fuel
    → ((i : ℕ) → k ≤ i → get i rest ≡ get i m)
    → Below m
    → FirstMissing m k (first_missing fuel m k)
unfolding first_missing
first_missing_lem zero m rest k h same below = elim h [ ]
first_missing_lem (suc fuel) m rest k h same below = elim (Option-cases (get k m)) [
  | inl e ↦ record {
    first = k;
    result = rw (contains_key-get k m, first_missing) (rw (e, first_missing));
    from = omega arith;
    absent = e;
    present = λ i p q. absurd (omega arith);
  }
  | inr (p, e) ↦
      let rec =
        first_missing_lem fuel m (remove k rest) (k + 1)
          (omega (arith, length-remove-lt k rest p (same k (omega arith) ∙ e)))
          (λ i q. ground (arith, get-remove k i rest, same i (omega arith))) below in
      let b = below k (λ q. cc) in
      let next : min (k + 1) u32_max ≡ k + 1 = omega (arith, b) in
      record {
        first = rec.first;
        result =
            rw (contains_key-get k m, first_missing) (rw (e, first_missing) (rw next rec.result));
        from = omega (arith, rec.from);
        absent = rec.absent;
        present = λ i lo hi. elim (Bool-cases (k == i)) [
          | inl same ↦ ground arith
          | inr other ↦ rec.present i (ground arith) hi
        ];
      }
]

module _ (stream : ℕ → List ℕ) where
  Below-Inv : (s : UdpFlowState) → Inv stream s → Below s.received
  Below-Inv s v i h = elim (Option-cases (get i s.received)) [
    | inl e ↦ absurd (h e)
    | inr (p, e) ↦ (v.holds i p e).below
  ]

  s_first_missing :
      (s : UdpFlowState)
      → Inv stream s
      → FirstMissing s.received s.packets_want
          (first_missing (suc (length s.received)) s.received s.packets_want)
  s_first_missing s v =
      first_missing_lem (suc (length s.received)) s.received s.received s.packets_want (omega arith)
        (λ i h. refl) (Below-Inv s v)

  abbrev ack_of : UdpFlowState → ℕ → UdpAck
  ack_of s first = record {
    connection_id = s.camera_id;
    group_id = 0;
    packet_id = first - 1;
    maybe_latency = s.ack_latency.display_value;
    payload = missing_ids s.received first;
  }

  build_send_ack_lem :
      (s : UdpFlowState) (v : Inv stream s)
      → build_send_ack s ≡ (
          if ltb 0 s.packets_want
          then some (ack_of s (s_first_missing s v).first)
          else some (empty_ack s.camera_id))
  unfolding build_send_ack
  build_send_ack_lem s v =
      let f = s_first_missing s v in
      elim (Bool-cases (ltb 0 s.packets_want)) [
        | inl some_want ↦ rw some_want (rw (f.result, build_send_ack))
        | inr none_want ↦ rw none_want
      ]

  -- In a state that satisfies the invariant of the receiver (what is buffered is genuine, still
  -- wanted and numbered below 2 ^ 32 - 1), an acknowledgement can always be built, and its
  -- bitmap has 4096 bytes at most.
  pub build_send_ack_total :
      (s : UdpFlowState)
      → Inv stream s
      → (a : UdpAck) × (build_send_ack s ≡ some a) × (length a.payload ≤ ack_bitmap_cap)
  build_send_ack_total s v =
      let f = s_first_missing s v in
      elim (Bool-cases (ltb 0 s.packets_want)) [
        | inl e ↦
            (ack_of s f.first, build_send_ack_lem s v ∙ rw e, length-missing_ids s.received f.first)
        | inr e ↦ (empty_ack s.camera_id, build_send_ack_lem s v ∙ rw e, omega arith)
      ]

  ack_of_truthful :
      (s peer : UdpFlowState) (now k : ℕ)
      (f : FirstMissing s.received s.packets_want
        (first_missing (suc (length s.received)) s.received s.packets_want))
      → 0 < s.packets_want
      → get k peer.sent ≢ none
      → get k (handle_ack peer (ack_of s f.first) now).sent ≡ none
      → (k < s.packets_want) ⊎ (get k s.received ≢ none)
  ack_of_truthful s peer now k f pos old gone =
      elim (handle_ack_marks peer (ack_of s f.first) now k old gone).1 [
        | inl below ↦ elim (Bool-cases (ltb k s.packets_want)) [
          | inl lt ↦ inl (ltb→lt k s.packets_want lt)
          | inr ge ↦ inr (f.present k (ground arith) (omega (arith, f.from)))
        ]
        | inr (lo, hit) ↦
            let e : f.first - 1 + 1 ≡ f.first = omega (arith, f.from) in
            let t = missing_ids_truthful s.received f.first _ (rw e at hit) in
            let g : f.first + (k - f.first) ≡ k = omega (arith, f.from) in inr (rw g at t)
      ]

  -- In a state that satisfies the invariant of the receiver, the acknowledgement that it builds
  -- makes the sender forget only packets that this receiver has handed on already or holds in
  -- its reorder buffer.
  pub handle_ack-build_send_ack :
      (s peer : UdpFlowState) (a : UdpAck) (now k : ℕ)
      → Inv stream s
      → build_send_ack s ≡ some a
      → get k peer.sent ≢ none
      → get k (handle_ack peer a now).sent ≡ none
      → (k < s.packets_want) ⊎ (get k s.received ≢ none)
  handle_ack-build_send_ack s peer a now k v built old gone =
      elim (Bool-cases (ltb 0 s.packets_want)) [
        | inl e ↦
            let f = s_first_missing s v in
            let same : a ≡ ack_of s f.first = some_eq (sym built ∙ build_send_ack_lem s v ∙ rw e) in
            ack_of_truthful s peer now k f (ltb→lt 0 s.packets_want e) old (rw same at gone)
        | inr e ↦
            let same : a ≡ empty_ack s.camera_id =
              some_eq (sym built ∙ build_send_ack_lem s v ∙ rw e) in
            absurd ((handle_ack_marks peer a now k old gone).0 (rw same))
      ]
