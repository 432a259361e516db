-- ===== src/Rtp/Examples.antt =====
-- The theorems of the fragmenters on small units.
use bairelay.Base.{ℕ, true, List, [], ◌∷◌, replicate, arith}
use bairelay.Rtp.{RtpCounters}
use bairelay.Rtp.Dispatch.{h264, video, dispatch}
use bairelay.Rtp.AccessUnit.{Delivered, dispatch-Delivered}

abbrev counters : RtpCounters
counters = record { ssrc = 7; seq = 65535 }

-- A parameter set and a slice in one access unit.
abbrev units : List (List ℕ)
units = (0x67 ∷ 1 ∷ []) ∷ (0x65 ∷ replicate 1400 2) ∷ []

dispatch-Delivered_example :
    Delivered h264 9000 true 65535 units (dispatch (video h264 units 9000 true true) counters).1
dispatch-Delivered_example =
    dispatch-Delivered h264 units 9000 true true counters (omega arith, (omega arith, tt))
      (omega arith)
