-- ===== src/Udp/Flow/Latency.antt =====
-- `AckLatency` of udpsource.rs.
use bairelay.Base.{
  ℕ, ◌+◌, ◌-◌, ◌/◌, ◌%◌, List, [], ◌∷◌, ◌++◌, Option, none, some, length, ltb, if◌then◌else◌,
}

pub record AckLatency : Type 0 where
  pub current_values : List ℕ
  pub last_receive_time : Option ℕ
  pub display_value : ℕ
  pub last_display_time : Option ℕ

-- The first half of `feed_ack`: `(now - last_receive_time).as_micros() as u32`.
unfoldable pub receive : AckLatency → ℕ → AckLatency
receive l now = elim l.last_receive_time [
  | some last ↦ record l {
    current_values = l.current_values ++ ((now - last) / 1000 % 4294967296 ∷ []);
    last_receive_time = some now;
  }
  | none ↦ record l { last_receive_time = some now }
]

-- `fold(0u32, |acc, value| acc + *value / count)`, the sum before it is cut to 32 bits.
unfoldable pub average_from : ℕ → ℕ → List ℕ → ℕ
average_from count acc [] = acc
average_from count acc (v ∷ vs) = average_from count (acc + v / count) vs

-- The second half: once a second the average becomes the displayed value.
unfoldable pub display : AckLatency → ℕ → AckLatency
unfolding average_from
display l now = elim l.last_display_time [
  | some last ↦
      if ltb 1000000000 (now - last)
      then record {
        current_values = [];
        last_receive_time = l.last_receive_time;
        display_value =
            average_from (length l.current_values % 4294967296) 0 l.current_values % 4294967296;
        last_display_time = some now;
      }
      else l
  | none ↦ record l { last_display_time = some now; display_value = 0 }
]

unfoldable pub feed_ack : AckLatency → ℕ → AckLatency
unfolding receive display
feed_ack l now = display (receive l now) now
