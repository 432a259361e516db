-- ===== src/Udp/Flow/Order.antt =====
-- The invariant of the receiving side of udpsource.rs, and one drain of its reorder buffer.
use bairelay.Base.{
  ℕ, zero, suc, ◌+◌, ◌%◌, ◌≤◌, ◌<◌, ◌≡◌, ◌⊎◌, ◌≢◌, inl, inr, ap, ◌∙◌, true, false, List, [], ◌∷◌,
  ◌++◌, append_assoc, append-nil, Option, none, some, length, ◌==◌, Bool-cases, Option-cases,
  ==_iff, arith,
}
use mathlib.Core.Path.{ap₂}
use bairelay.Base.BTreeMap.{get, insert, remove, get-insert, get-remove, length-remove-lt}
use bairelay.Udp.Model.{UdpData}
use bairelay.Udp.Flow.{
  UdpFlowState, new, handle_data, drain_loop, drain_contiguous, u32_max, u32_mod, reorder_cap,
}

-- n packets of the stream, from number k on.
abbrev pub segment : (ℕ → List ℕ) → ℕ → ℕ → List (List ℕ)
segment stream k zero = []
segment stream k (suc n) = stream k ∷ segment stream (suc k) n

-- What is buffered is the peer's, is still wanted, and can be acknowledged.
pub record Holds (stream : ℕ → List ℕ) (want k : ℕ) (p : List ℕ) : Type 0 where
  pub genuine : p ≡ stream k
  pub wanted : want ≤ k
  pub below : k < u32_max

pub record Inv (stream : ℕ → List ℕ) (s : UdpFlowState) : Type 0 where
  pub want_fits : s.packets_want ≤ u32_max
  pub holds : (k : ℕ) (p : List ℕ) → get k s.received ≡ some p → Holds stream s.packets_want k p

-- What a drain of `s`, with `out` drained so far, ends in.
pub record Drained (stream : ℕ → List ℕ) (s : UdpFlowState) (out : List (List ℕ))
    (r : Option (UdpFlowState × List (List ℕ))) : Type 0 where
  pub count : ℕ
  pub final : UdpFlowState
  pub result : r ≡ some (final, out ++ segment stream s.packets_want count)
  pub want : final.packets_want ≡ s.packets_want + count
  pub inv : Inv stream final
  pub exhausted : get final.packets_want final.received ≡ none
  pub progress : get s.packets_want s.received ≢ none → 0 < count

-- Why a packet is taken.
pub record Taken (s : UdpFlowState) (d : UdpData) : Type 0 where
  pub ours : d.connection_id ≡ s.client_id
  pub not_max : d.packet_id ≢ u32_max
  pub wanted : s.packets_want ≤ d.packet_id
  pub room : length s.received < reorder_cap
  pub result :
      handle_data s d ≡ (record s { received = insert d.packet_id d.payload s.received }, true)

-- The guards of `handle_data`: the packet is left, or it meets all of them and is buffered.
pub handle_data_cases :
    (s : UdpFlowState) (d : UdpData) → (handle_data s d ≡ (s, false)) ⊎ Taken s d
unfolding handle_data
handle_data_cases s d = ground arith

module _ (stream : ℕ → List ℕ) where
  pub new-Inv : (client_id camera_id : ℕ) → Inv stream (new client_id camera_id)
  unfolding new get
  new-Inv client_id camera_id = record { want_fits = omega arith; holds = λ k p e. cc }

  insert-Holds :
      (s : UdpFlowState) (d : UdpData)
      → Inv stream s
      → d.payload ≡ stream d.packet_id
      → s.packets_want ≤ d.packet_id
      → d.packet_id < u32_max
      → (k : ℕ) (p : List ℕ) → get k (insert d.packet_id d.payload s.received) ≡ some p
      → Holds stream s.packets_want k p
  insert-Holds s d v e lo hi k p h = elim (Bool-cases (d.packet_id == k)) [
    | inl same ↦ ground (
      arith,
      get-insert d.packet_id k d.payload s.received,
      ap stream ((==_iff d.packet_id k).0 same),
    )
    | inr other ↦ v.holds k p (ground (arith, get-insert d.packet_id k d.payload s.received))
  ]

  -- A packet of the peer keeps the invariant, whether it is taken or not.
  pub handle_data-Inv :
      (s : UdpFlowState) (d : UdpData)
      → Inv stream s
      → d.payload ≡ stream d.packet_id
      → d.packet_id ≤ u32_max
      → Inv stream (handle_data s d).0
  handle_data-Inv s d v e fits = elim (handle_data_cases s d) [
    | inl left ↦ rw left v
    | inr t ↦ rw t.result (record {
      want_fits = v.want_fits;
      holds = insert-Holds s d v e t.wanted (omega (arith, t.not_max));
    })
  ]

  abbrev advance : UdpFlowState → UdpFlowState
  advance s = record s {
    received = remove s.packets_want s.received;
    packets_want = (s.packets_want + 1) % u32_mod;
  }

  advance-Holds :
      (s : UdpFlowState) (k : ℕ) (q : List ℕ)
      → Inv stream s
      → s.packets_want < u32_max
      → get k (remove s.packets_want s.received) ≡ some q
      → Holds stream ((s.packets_want + 1) % u32_mod) k q
  advance-Holds s k q v fits h = elim (Bool-cases (k == s.packets_want)) [
    | inl same ↦ ground (arith, get-remove s.packets_want k s.received)
    | inr other ↦
        ground (arith, v.holds k q (ground (arith, get-remove s.packets_want k s.received)))
  ]

  advance-Inv :
      (s : UdpFlowState) → Inv stream s → s.packets_want < u32_max → Inv stream (advance s)
  advance-Inv s v fits = record {
    want_fits = omega arith;
    holds = λ k q h. advance-Holds s k q v fits h;
  }

  drain_loop-Drained :
      (fuel : ℕ) (s : UdpFlowState) (out : List (List ℕ))
      → length s.received < fuel
      → Inv stream s
      → Drained stream s out (drain_loop fuel s out)
  unfolding drain_loop
  drain_loop-Drained zero s out h v = elim h [ ]
  drain_loop-Drained (suc fuel) s out h v = elim (Option-cases (get s.packets_want s.received)) [
    | inl e ↦ record {
      count = 0;
      final = s;
      result = rw (e, drain_loop, append-nil out);
      want = omega arith;
      inv = v;
      exhausted = e;
      progress = λ h. absurd (h e);
    }
    | inr (p, e) ↦
        let old = v.holds s.packets_want p e in
        let rec =
          drain_loop-Drained fuel (advance s) (out ++ (p ∷ []))
            (omega (arith, length-remove-lt s.packets_want s.received p e))
            (advance-Inv s v old.below) in
        record {
          count = suc rec.count;
          final = rec.final;
          result =
              rw (e, drain_loop)
                (rec.result
                  ∙ ap (λ o. some (rec.final, o))
                      (shift s.packets_want p out rec.count old.genuine old.below));
          want = omega (arith, rec.want, old.below);
          inv = rec.inv;
          exhausted = rec.exhausted;
          progress = λ h. omega arith;
        }
  ]
    where
      shift :
          (w : ℕ) (p : List ℕ) (o : List (List ℕ)) (n : ℕ)
          → p ≡ stream w
          → w < u32_max
          → (o ++ (p ∷ [])) ++ segment stream ((w + 1) % u32_mod) n
            ≡ o ++ (stream w ∷ segment stream (suc w) n)
      shift w p o n g b =
          rw (append_assoc o (p ∷ []))
            (ap (λ r. o ++ r) (ap₂ (λ a t. a ∷ segment stream t n) g (omega arith)))

  -- A drain ends, hands on the packets from `packets_want` on in order, advances `packets_want` past
  -- them, and stops at the first one that is missing.
  pub drain_contiguous-Drained :
      (s : UdpFlowState) → Inv stream s → Drained stream s [] (drain_contiguous s)
  unfolding drain_contiguous
  drain_contiguous-Drained s v = drain_loop-Drained (suc (length s.received)) s [] (omega arith) v
