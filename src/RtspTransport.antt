-- ===== src/RtspTransport.antt =====
-- The `Transport:` header of an RTSP request: the parser of src/rtsp/protocol/transport.rs. A string is the list of its
-- code points; the texts inside errors and the headers of responses are left out.
pub mod Bounds
mod Examples
use bairelay.Base.{
  ℕ, ◌+◌, ◌-◌, ◌*◌, Bool, true, false, ◌&&◌, ◌||◌, List, [], ◌∷◌, map, Option, none, some, leb, ltb,
  ◌==◌, if◌then◌else◌,
}
use bairelay.RtspAuth.Text.{codes, byte_len, split_at, eq_ignore_ascii_case, trim, split_once}

pub data TransportSpec : Type 0 where
  tcp_interleaved : (channel_rtp channel_rtcp : ℕ) → TransportSpec
  udp_unicast : (client_rtp_port client_rtcp_port : ℕ) → TransportSpec

pub data TransportError : Type 0 where
  unsupported malformed : TransportError

-- A value, an error, or a panic of the slicing.
pub data Read (A : Type 0) : Type 0 where
  read : A → Read A
  refused : TransportError → Read A
  panicked : Read A

abbrev pub and_then : {A B : Type 0} → Read A → (A → Read B) → Read B
and_then (read value) next = next value
and_then (refused error) next = refused error
and_then panicked next = panicked

-- `str::split`
unfoldable pub split : ℕ → List ℕ → List (List ℕ)
split d [] = [] ∷ []
split d (c ∷ s) =
    let rest = split d s in
    if c == d
    then [] ∷ rest
    else elim rest [ [] ↦ (c ∷ []) ∷ [] | part ∷ parts ↦ (c ∷ part) ∷ parts ]

-- `str::parse` of an unsigned integer: digits only, behind one plus sign or none.
unfoldable pub digits_value : ℕ → List ℕ → Option ℕ
digits_value value [] = some value
digits_value value (c ∷ s) =
    let rest = digits_value (value * 10 + (c - 48)) s in if leb 48 c && leb c 57 then rest else none

abbrev pub some_digits : List ℕ → Option ℕ
some_digits [] = none
some_digits (c ∷ s) = digits_value 0 (c ∷ s)

abbrev pub within : ℕ → Option ℕ → Option ℕ
within bound none = none
within bound (some value) = if ltb value bound then some value else none

unfoldable pub parse_unsigned : ℕ → List ℕ → Option ℕ
unfolding digits_value
parse_unsigned bound [] = none
parse_unsigned bound (c ∷ s) = within bound (some_digits (if c == 43 then s else c ∷ s))

-- `parse_range_u8` and `parse_range_u16`
abbrev pub both : Option ℕ → Option ℕ → Option (ℕ × ℕ)
both none b = none
both (some a) none = none
both (some a) (some b) = some (a, b)

abbrev pub range_of : ℕ → Option (List ℕ × List ℕ) → Option (ℕ × ℕ)
range_of bound none = none
range_of bound (some (a, b)) = both (parse_unsigned bound (trim a)) (parse_unsigned bound (trim b))

unfoldable pub parse_range : ℕ → List ℕ → Option (ℕ × ℕ)
unfolding parse_unsigned trim split_once
parse_range bound s = range_of bound (split_once 45 s)

-- Nothing where the slicing panics, because the prefix ends inside a character.
unfoldable pub strip_prefix_ignore_case : List ℕ → List ℕ → Option (Option (List ℕ))
unfolding byte_len split_at eq_ignore_ascii_case
strip_prefix_ignore_case s prefix =
    if leb (byte_len prefix) (byte_len s)
    then elim (split_at (byte_len prefix) s) [
      | none ↦ none
      | some (front, back) ↦ some (if eq_ignore_ascii_case front prefix then some back else none)
    ]
    else some none

pub record Params : Type 0 where
  pub interleaved : Option (ℕ × ℕ)
  pub client_port : Option (ℕ × ℕ)

abbrev pub set_interleaved : Option (ℕ × ℕ) → Params → Read Params
set_interleaved none p = refused malformed
set_interleaved (some channels) p = read (record p { interleaved = some channels })

abbrev pub set_client_port : Option (ℕ × ℕ) → Params → Read Params
set_client_port none p = refused malformed
set_client_port (some ports) p = read (record p { client_port = some ports })

abbrev pub on_client_port : Option (Option (List ℕ)) → Params → Read Params
on_client_port none p = panicked
on_client_port (some none) p = read p
on_client_port (some (some rest)) p = set_client_port (parse_range 65536 rest) p

abbrev pub on_interleaved : Option (Option (List ℕ)) → List ℕ → Params → Read Params
on_interleaved none part p = panicked
on_interleaved (some none) part p =
    on_client_port (strip_prefix_ignore_case part (codes "client_port=")) p
on_interleaved (some (some rest)) part p = set_interleaved (parse_range 256 rest) p

unfoldable pub read_part : List ℕ → Params → Read Params
unfolding eq_ignore_ascii_case strip_prefix_ignore_case parse_range
read_part part p =
    if eq_ignore_ascii_case part (codes "unicast")
    then read p
    else if eq_ignore_ascii_case part (codes "multicast")
    then refused unsupported
    else on_interleaved (strip_prefix_ignore_case part (codes "interleaved=")) part p

-- The loop over the parameters behind the profile.
unfoldable pub read_parts : List (List ℕ) → Params → Read Params
unfolding read_part
read_parts [] p = read p
read_parts (part ∷ parts) p = and_then (read_part part p) (read_parts parts)

abbrev pub tcp_of : Option (ℕ × ℕ) → Read TransportSpec
tcp_of none = refused malformed
tcp_of (some (rtp, rtcp)) = read (tcp_interleaved rtp rtcp)

abbrev pub udp_of : Option (ℕ × ℕ) → Read TransportSpec
udp_of none = refused malformed
udp_of (some (rtp, rtcp)) = read (udp_unicast rtp rtcp)

unfoldable pub parse_parts : List (List ℕ) → Read TransportSpec
unfolding eq_ignore_ascii_case read_parts
parse_parts [] = refused malformed
parse_parts (profile ∷ parts) =
    let is_tcp = eq_ignore_ascii_case profile (codes "RTP/AVP/TCP") in
    let is_udp =
      eq_ignore_ascii_case profile (codes "RTP/AVP")
      || eq_ignore_ascii_case profile (codes "RTP/AVP/UDP") in
    let params = read_parts parts (record { interleaved = none; client_port = none }) in
    if is_tcp
    then and_then params (λ p. tcp_of p.interleaved)
    else if is_udp
    then and_then params (λ p. udp_of p.client_port)
    else refused unsupported

unfoldable pub parse : List ℕ → Read TransportSpec
unfolding split trim parse_parts
parse value = parse_parts (map trim (split 59 (trim value)))
