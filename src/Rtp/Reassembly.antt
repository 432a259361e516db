-- ===== src/Rtp/Reassembly.antt =====
-- A receiver gets the unit back from its fragments.
use bairelay.Base.{
  ℕ, zero, suc, ◌+◌, ◌-◌, ◌%◌, ◌≤◌, ◌<◌, ◌≡◌, refl, sym, ap, ◌∙◌, subst, min, Bool, true, false,
  ◌&&◌, List, [], ◌∷◌, ◌++◌, map, length, take, drop, length-take, take-append-drop,
  drop-append_length, ltb, leb, ◌==◌, Bool-cases, inl, inr, arith,
}
use bairelay.Rtp.{RtpPacket, RtpCounters, next_seq, Fragmenter, fu_header, fragment, fragment_loop}

abbrev pub join : List (List ℕ) → List ℕ
join [] = []
join (x ∷ xs) = x ++ join xs

drop-nil : (n : ℕ) → drop {A = ℕ} n [] ≡ []
drop-nil zero = refl
drop-nil (suc n) = refl

drop-add : (a b : ℕ) (xs : List ℕ) → drop (a + b) xs ≡ drop b (drop a xs)
drop-add zero b xs = ap (λ n. drop n xs) (omega arith)
drop-add (suc a) b [] = drop-nil (suc a + b) ∙ sym (drop-nil b)
drop-add (suc a) b (x ∷ xs) =
    let e : suc a + b ≡ suc (a + b) = omega arith in rw e (drop-add a b xs)

abbrev pub is_nil : List RtpPacket → Bool
is_nil [] = true
is_nil (p ∷ ps) = false

-- The data of a fragment, behind its head and its FU header.
abbrev pub data_of : Fragmenter → RtpPacket → List ℕ
data_of f p = drop (length f.head + 1) p.payload

-- Fragments in order: consecutive sequence numbers, the start bit on the first one alone, the end bit and the
-- marker on the last one alone, and none larger than its room.
abbrev pub Marked : Fragmenter → ℕ → Bool → List RtpPacket → Type 0
Marked f seq first [] = Unit {0}
Marked f seq first (p ∷ ps) =
    (p.sequence_number ≡ seq)
    × (p.marker ≡ (is_nil ps && f.marker_on_last))
    × (take (length f.head + 1) p.payload ≡ f.head ++ (fu_header f.nal_type first (is_nil ps) ∷ []))
    × (length (data_of f p) ≤ f.max_fragment_payload)
    × Marked f ((seq + 1) % 65536) false ps

data_of-append :
    (head bytes : List ℕ) (h : ℕ) → drop (length head + 1) (head ++ (h ∷ bytes)) ≡ bytes
data_of-append head bytes h =
    drop-add (length head) 1 (head ++ (h ∷ bytes))
    ∙ ap (drop 1) (drop-append_length head (h ∷ bytes))

head_of-append :
    (head bytes : List ℕ) (h : ℕ) → take (length head + 1) (head ++ (h ∷ bytes)) ≡ head ++ (h ∷ [])
head_of-append [] bytes h = refl
head_of-append (x ∷ head) bytes h =
    let e : suc (length head) + 1 ≡ suc (length head + 1) = omega arith in
    rw e (ap (◌∷◌ x) (head_of-append head bytes h))

pub fragment_loop_nil :
    (fuel : ℕ) (f : Fragmenter) (body : List ℕ) (offset : ℕ) (c : RtpCounters)
    → length body - offset ≤ fuel
    → is_nil (fragment_loop fuel f body offset c).1 ≡ leb (length body) offset
unfolding fragment_loop
fragment_loop_nil zero f body offset c h = ground arith
fragment_loop_nil (suc fuel) f body offset c h = ground arith

-- What the loop makes of the body from `offset` on.
pub record Fragments (f : Fragmenter) (body : List ℕ) (offset seq : ℕ) (ps : List RtpPacket)
    : Type 0 where
  pub data_is : join (map (data_of f) ps) ≡ drop offset body
  pub marked : Marked f seq (offset == 0) ps

drop_all : (n : ℕ) (xs : List ℕ) → length xs ≤ n → drop n xs ≡ []
drop_all n [] h = drop-nil n
drop_all zero (x ∷ xs) h = absurd (omega arith)
drop_all (suc n) (x ∷ xs) h = drop_all n xs (omega arith)

pub fragment_loop-Fragments :
    (fuel : ℕ) (f : Fragmenter) (body : List ℕ) (offset : ℕ) (c : RtpCounters)
    → 1 ≤ f.max_fragment_payload
    → length body - offset ≤ fuel
    → Fragments f body offset c.seq (fragment_loop fuel f body offset c).1
unfolding fragment_loop fragment next_seq
fragment_loop-Fragments zero f body offset c pos h = record {
  data_is = sym (drop_all offset body (omega arith));
  marked = tt;
}
fragment_loop-Fragments (suc fuel) f body offset c pos h =
    elim (Bool-cases (ltb offset (length body))) [
      | inr over ↦
          rw over (record { data_is = sym (drop_all offset body (ground arith)); marked = tt })
      | inl more ↦
          let end = min (offset + f.max_fragment_payload) (length body) in
          let lt : offset < length body = ground arith in
          let c' = (next_seq c).0 in
          let rec = fragment_loop-Fragments fuel f body end c' pos (omega (arith, lt)) in
          let chunk = take (end - offset) (drop offset body) in
          let whole : offset + (end - offset) ≡ end = omega (arith, lt) in
          let last : is_nil (fragment_loop fuel f body end c').1 ≡ (end == length body) =
            fragment_loop_nil fuel f body end c' (omega (arith, lt)) ∙ ground arith in
          let nonzero : (end == 0) ≡ false = ground (arith, lt) in
          rw more (record {
            data_is =
                rw (data_of-append f.head chunk _, rec.data_is)
                  (ap (λ r. chunk ++ r)
                      (ap (λ n. drop n body) (sym whole) ∙ drop-add offset (end - offset) body)
                    ∙ take-append-drop (end - offset) (drop offset body));
            marked = (
              refl,
              ap (λ b. b && f.marker_on_last) (sym last),
              head_of-append f.head chunk _
                  ∙ ap (λ b. f.head ++ (fu_header f.nal_type (offset == 0) b ∷ [])) (sym last),
              rw (data_of-append f.head chunk _)
                  (omega (arith, length-take (end - offset) (drop offset body))),
              subst (λ b. Marked f ((c.seq + 1) % 65536) b (fragment_loop fuel f body end c').1)
                  nonzero rec.marked,
            );
          })
    ]
