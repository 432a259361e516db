-- ===== src/RtspTransport/Bounds.antt =====
-- Channels and ports fit their types.
use bairelay.Base.{
  ℕ, ◌<◌, Bool, true, false, ltb, ◌||◌, List, [], ◌∷◌, map, Option, none, some, if◌then◌else◌, ◌==◌,
  Bool-cases, inl, inr, arith,
}
use bairelay.RtspAuth.Text.{codes, trim, split_once, eq_ignore_ascii_case}
use bairelay.RtspTransport.{
  TransportSpec, tcp_interleaved, udp_unicast, Read, read, refused, panicked, and_then, split,
  some_digits, within, parse_unsigned, both, range_of, parse_range, strip_prefix_ignore_case,
  Params, set_interleaved, set_client_port, on_client_port, on_interleaved, read_part, read_parts,
  tcp_of, udp_of, parse_parts, parse,
}

abbrev pub Ranged : ℕ → Option (ℕ × ℕ) → Type 0
Ranged bound none = Unit {0}
Ranged bound (some range) = (range.0 < bound) × (range.1 < bound)

abbrev Small : ℕ → Option ℕ → Type 0
Small bound none = Unit {0}
Small bound (some value) = value < bound

-- Of what is read, if anything is.
abbrev pub OfRead : {A : Type 0} → (A → Type 0) → Read A → Type 0
OfRead P (read value) = P value
OfRead P (refused error) = Unit {0}
OfRead P panicked = Unit {0}

and_then-OfRead :
    {A B : Type 0} (P : A → Type 0) (Q : B → Type 0) (r : Read A) (next : A → Read B)
    → OfRead P r
    → ((a : A) → P a → OfRead Q (next a))
    → OfRead Q (and_then r next)
and_then-OfRead P Q (read value) next h step = step value h
and_then-OfRead P Q (refused error) next h step = tt
and_then-OfRead P Q panicked next h step = tt

if-OfRead :
    {A : Type 0} (P : A → Type 0) (b : Bool) (first second : Read A)
    → OfRead P first
    → OfRead P second
    → OfRead P (if b then first else second)
if-OfRead P true first second h k = h
if-OfRead P false first second h k = k

within-Small : (bound : ℕ) (o : Option ℕ) → Small bound (within bound o)
within-Small bound none = tt
within-Small bound (some value) = elim (Bool-cases (ltb value bound)) [
  | inl small ↦ rw small (ground (arith, small))
  | inr large ↦ rw large tt
]

parse_unsigned-Small : (bound : ℕ) (s : List ℕ) → Small bound (parse_unsigned bound s)
unfolding parse_unsigned
parse_unsigned-Small bound [] = tt
parse_unsigned-Small bound (c ∷ s) = within-Small bound (some_digits (if c == 43 then s else c ∷ s))

both-Ranged : (bound : ℕ) (a b : Option ℕ) → Small bound a → Small bound b → Ranged bound (both a b)
both-Ranged bound none b h k = tt
both-Ranged bound (some a) none h k = tt
both-Ranged bound (some a) (some b) h k = (h, k)

range_of-Ranged : (bound : ℕ) (o : Option (List ℕ × List ℕ)) → Ranged bound (range_of bound o)
range_of-Ranged bound none = tt
range_of-Ranged bound (some (a, b)) =
    both-Ranged bound _ _ (parse_unsigned-Small bound (trim a))
      (parse_unsigned-Small bound (trim b))

parse_range-Ranged : (bound : ℕ) (s : List ℕ) → Ranged bound (parse_range bound s)
unfolding parse_range
parse_range-Ranged bound s = range_of-Ranged bound (split_once 45 s)

record Bounded (p : Params) : Type 0 where
  channels : Ranged 256 p.interleaved
  ports : Ranged 65536 p.client_port

set_interleaved-Bounded :
    (o : Option (ℕ × ℕ)) (p : Params)
    → Ranged 256 o
    → Bounded p
    → OfRead Bounded (set_interleaved o p)
set_interleaved-Bounded none p h b = tt
set_interleaved-Bounded (some range) p h b = record { channels = h; ports = b.ports }

set_client_port-Bounded :
    (o : Option (ℕ × ℕ)) (p : Params)
    → Ranged 65536 o
    → Bounded p
    → OfRead Bounded (set_client_port o p)
set_client_port-Bounded none p h b = tt
set_client_port-Bounded (some range) p h b = record { channels = b.channels; ports = h }

on_client_port-Bounded :
    (o : Option (Option (List ℕ))) (p : Params) → Bounded p → OfRead Bounded (on_client_port o p)
on_client_port-Bounded none p b = tt
on_client_port-Bounded (some none) p b = b
on_client_port-Bounded (some (some rest)) p b =
    set_client_port-Bounded (parse_range 65536 rest) p (parse_range-Ranged 65536 rest) b

on_interleaved-Bounded :
    (o : Option (Option (List ℕ))) (part : List ℕ) (p : Params)
    → Bounded p
    → OfRead Bounded (on_interleaved o part p)
on_interleaved-Bounded none part p b = tt
on_interleaved-Bounded (some none) part p b =
    on_client_port-Bounded (strip_prefix_ignore_case part (codes "client_port=")) p b
on_interleaved-Bounded (some (some rest)) part p b =
    set_interleaved-Bounded (parse_range 256 rest) p (parse_range-Ranged 256 rest) b

read_parts-Bounded :
    (parts : List (List ℕ)) (p : Params) → Bounded p → OfRead Bounded (read_parts parts p)
unfolding read_parts read_part
read_parts-Bounded [] p b = b
read_parts-Bounded (part ∷ parts) p b =
    and_then-OfRead Bounded Bounded (read_part part p) (read_parts parts)
      (if-OfRead Bounded (eq_ignore_ascii_case part (codes "unicast")) _ _ b (
        if-OfRead Bounded (eq_ignore_ascii_case part (codes "multicast")) _ _ tt
          (on_interleaved-Bounded (strip_prefix_ignore_case part (codes "interleaved=")) part p b)))
      (read_parts-Bounded parts)

-- The channels of TCP fit a u8, the ports of UDP a u16.
abbrev pub Fits : TransportSpec → Type 0
Fits (tcp_interleaved rtp rtcp) = (rtp < 256) × (rtcp < 256)
Fits (udp_unicast rtp rtcp) = (rtp < 65536) × (rtcp < 65536)

tcp_of-Fits : (o : Option (ℕ × ℕ)) → Ranged 256 o → OfRead Fits (tcp_of o)
tcp_of-Fits none h = tt
tcp_of-Fits (some range) h = h

udp_of-Fits : (o : Option (ℕ × ℕ)) → Ranged 65536 o → OfRead Fits (udp_of o)
udp_of-Fits none h = tt
udp_of-Fits (some range) h = h

-- Whatever header comes: the channels that are read from it are below 256, and the ports below 65536.
parse-Fits : (value : List ℕ) → OfRead Fits (parse value)
unfolding parse parse_parts
parse-Fits value = of_parts (map trim (split 59 (trim value)))
  where
    of_parts : (parts : List (List ℕ)) → OfRead Fits (parse_parts parts)
    of_parts [] = tt
    of_parts (profile ∷ parts) =
        let params = read_parts parts (record { interleaved = none; client_port = none }) in
        let b = read_parts-Bounded parts _ (record { channels = tt; ports = tt }) in
        if-OfRead Fits (eq_ignore_ascii_case profile (codes "RTP/AVP/TCP")) _ _
          (and_then-OfRead Bounded Fits params (λ p. tcp_of p.interleaved) b
            (λ p h. tcp_of-Fits _ h.channels))
          (if-OfRead Fits
            (eq_ignore_ascii_case profile (codes "RTP/AVP")
              || eq_ignore_ascii_case profile (codes "RTP/AVP/UDP"))
            _ _
            (and_then-OfRead Bounded Fits params (λ p. udp_of p.client_port) b
              (λ p h. udp_of-Fits _ h.ports))
            tt)
