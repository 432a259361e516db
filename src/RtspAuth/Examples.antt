-- ===== src/RtspAuth/Examples.antt =====
-- A user over TLS, a stale nonce, and a header that ends the connection.
use bairelay.Base.{ℕ, ◌≡◌, ◌⊎◌, refl, true, List, [], ◌∷◌, some, arith}
use bairelay.RtspAuth.Text.{codes, to_ascii_lowercase}
use bairelay.RtspAuth.{
  Codecs, ConnectionState, Nonce, nonce_ttl, authenticate, accepted, connection_lost,
}
use bairelay.RtspAuth.Granted.{ByPassword, ByDigest, authenticate-Granted}
use bairelay.RtspAuth.Unaligned.{unaligned, authenticate-unaligned}

-- A digest that only takes lower case, and a Base64 that changes nothing.
abbrev plain : Codecs
plain = record { md5_hex = to_ascii_lowercase; decode_text = λ s. some s }

abbrev nonce : Nonce
nonce = record { value = codes "0f"; created = 0 }

abbrev fresh : Nonce
fresh = record { value = codes "1e"; created = 7 }

abbrev state : ConnectionState
state = record {
  users = record { name = codes "a"; password = codes "b" } ∷ [];
  realm = codes "r";
  is_tls = true;
  current_nonce = nonce;
}

abbrev header : List ℕ
header =
    codes
      "digest Username=\"a\", nonce=\"0f\", uri=\"rtsp://h/s\", response=\"A:r:b:0f::::setup:rtsp://h/s\""

authenticate-Granted_example :
    (value : List ℕ) × (some header ≡ some value)
    × (ByPassword plain state value (codes "a")
        ⊎ ByDigest plain state value (codes "/s") (codes "SETUP") 5 (codes "a"))
unfolding authenticate
authenticate-Granted_example =
    authenticate-Granted plain state (some header) (codes "/s") (codes "SETUP") 5 nonce (codes "a")
      refl

-- The same over TLS by name and password.
by_password :
    (authenticate plain state (some (codes "Basic a:b")) (codes "/s") (codes "SETUP") 5 nonce).0
    ≡ accepted (codes "a")
unfolding authenticate
by_password = refl

-- A response to an old nonce is answered with a fresh one, which is kept.
stale :
    (authenticate plain state
      (some header)
      (codes "/s")
      (codes "SETUP")
      nonce_ttl
      fresh).1.current_nonce
    ≡ fresh
unfolding authenticate
stale = refl

authenticate-unaligned_example :
    authenticate plain state (some (unaligned 233 (codes " x"))) (codes "/") (codes "SETUP") 5 nonce
    ≡ (connection_lost, state)
authenticate-unaligned_example =
    authenticate-unaligned plain state 233 (codes " x") (codes "/") (codes "SETUP") 5 nonce
      (omega arith)
