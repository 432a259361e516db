-- ===== src/RtspTransport/Examples.antt =====
-- Headers of the parser's documentation, and one that ends inside a character.
use bairelay.Base.{◌≡◌, refl}
use bairelay.RtspAuth.Text.{codes}
use bairelay.RtspTransport.{
  read, refused, malformed, unsupported, panicked, tcp_interleaved, udp_unicast, parse,
}

tcp : parse (codes "RTP/AVP/TCP;unicast;interleaved=0-1") ≡ read (tcp_interleaved 0 1)
unfolding parse
tcp = refl

udp :
    parse (codes " rtp/avp ; unicast;client_port= 5000 - +5001;mode=play")
    ≡ read (udp_unicast 5000 5001)
unfolding parse
udp = refl

too_large : parse (codes "RTP/AVP/TCP;interleaved=0-256") ≡ refused malformed
unfolding parse
too_large = refl

multicast : parse (codes "RTP/AVP;multicast;client_port=1-2") ≡ refused unsupported
unfolding parse
multicast = refl

-- The index 12 lies inside the last character.
unaligned : parse (codes "RTP/AVP;interleavedé") ≡ panicked
unfolding parse
unaligned = refl
