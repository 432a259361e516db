-- ===== src/RtspAuth/Unaligned.antt =====
-- A header whose scheme ends inside a character.
use bairelay.Base.{
  ℕ, ◌≤◌, ◌≡◌, refl, Bool, true, false, ◌&&◌, List, ◌∷◌, ◌++◌, none, some, leb, le→leb, arith,
}
use bairelay.Base.HashMap.{starts_with}
use bairelay.RtspAuth.Text.{codes, len_utf8, byte_len, split_at, to_ascii_lowercase}
use bairelay.RtspAuth.Header.{panicked, strip_prefix_ignore_case, parse_digest_params}
use bairelay.RtspAuth.{
  Codecs, verify_digest, Nonce, ConnectionState, connection_lost, on_digest, authenticate,
}

-- Six bytes, and then a character of more than one.
abbrev pub unaligned : ℕ → List ℕ → List ℕ
unaligned c rest = codes "Digest" ++ c ∷ rest

wide : (c : ℕ) → 128 ≤ c → 2 ≤ len_utf8 c
unfolding len_utf8
wide c h = ground arith

long : (c : ℕ) (rest : List ℕ) → 128 ≤ c → leb 7 (byte_len (unaligned c rest)) ≡ true
unfolding byte_len
long c rest h = le→leb 7 (byte_len (unaligned c rest)) (omega (arith, wide c h))

-- The slice would end behind the first byte of the character.
split_at-unaligned : (c : ℕ) (rest : List ℕ) → 128 ≤ c → split_at 7 (unaligned c rest) ≡ none
unfolding split_at
split_at-unaligned c rest h = rw (wide_cut c h, split_at) refl
  where
    wide_cut : (c : ℕ) → 128 ≤ c → leb (len_utf8 c) 1 ≡ false
    wide_cut c h = ground (arith, wide c h)

strip_prefix-unaligned :
    (c : ℕ) (rest : List ℕ)
    → 128 ≤ c
    → strip_prefix_ignore_case (unaligned c rest) (codes "Digest ") ≡ panicked
unfolding strip_prefix_ignore_case
strip_prefix-unaligned c rest h =
    rw (long c rest h, strip_prefix_ignore_case)
      (rw (split_at-unaligned c rest h, strip_prefix_ignore_case) refl)

-- A header that begins with "Digest" and a character of more than one byte in place of the space
-- makes the slicing panic, whatever users and nonce there are: the connection is lost, and its
-- state is as before.
pub authenticate-unaligned :
    (codecs : Codecs) (s : ConnectionState) (c : ℕ) (rest uri method : List ℕ) (now : ℕ)
    (fresh : Nonce)
    → 128 ≤ c
    → authenticate codecs s (some (unaligned c rest)) uri method now fresh ≡ (connection_lost, s)
unfolding authenticate verify_digest parse_digest_params on_digest starts_with to_ascii_lowercase
authenticate-unaligned codecs s c rest uri method now fresh h =
    rw (and_false s.is_tls)
      (rw (strip_prefix-unaligned c rest h, parse_digest_params, verify_digest, on_digest) refl)
  where
    and_false : (b : Bool) → (b && false) ≡ false
    and_false true = refl
    and_false false = refl
