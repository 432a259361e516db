-- ===== src/Poller/Examples.antt =====
-- A request whose reply comes after an unrelated message.
use bairelay.Base.{ℕ, ◌≡◌, refl, Bool, false, List, [], ◌∷◌}
use bairelay.Base.BTreeMap.{get, insert, remove, retain, retain_values, map_values}
use bairelay.Bc.Model.{Bc, legacy_msg, login_upgrade}
use bairelay.Poller.{
  Channel, Subscriber, bc_command, send, poll, handle_command, subscribe, clean_up, or_default,
  route, num_key, find_sender, get_open, is_empty,
}
use bairelay.Poller.Reply.{Round, poll_all, poll-subscribe}
use bairelay.Poller.Upgrade.{poll-upgrade}

abbrev all_open : Channel → Bool
all_open ch = false

abbrev message : ℕ → ℕ → Bc ℕ ℕ
message msg_id msg_num = record {
  meta = record {
    msg_id = msg_id;
    channel_id = 0;
    stream_type = 0;
    response_code = 200;
    msg_num = msg_num;
    class = 0;
  };
  body = legacy_msg login_upgrade;
}

abbrev nobody : Subscriber ℕ
nobody = record { num = []; id = [] }

abbrev between : List (Round ℕ ℕ ℕ)
between =
    record { closed = all_open; closed_now = all_open; command = bc_command (message 3 8) } ∷ []

-- Channel 5 waits for the message 3 with the number 7.
abbrev waiting : Subscriber ℕ
waiting = record { num = (3, (8, 5) ∷ []) ∷ []; id = [] }

poll-subscribe_example :
    (poll all_open all_open waiting (bc_command (message 3 7))).effects ≡ send 5 (message 3 7) ∷ []
unfolding poll_all poll handle_command subscribe clean_up or_default route num_key find_sender
    get_open is_empty get insert retain_values map_values
poll-subscribe_example =
    poll-subscribe 3 7 5 all_open all_open all_open all_open between nobody waiting (message 3 7)
      refl refl ((refl, refl, tt), tt) refl refl refl refl refl

-- Channel 6 waits for any message 3.
abbrev any_number : Subscriber ℕ
any_number = record { num = (3, (0, 6) ∷ []) ∷ []; id = [] }

-- The first one had the number 9.
abbrev upgraded : Subscriber ℕ
upgraded = record { num = (3, (10, 6) ∷ []) ∷ []; id = [] }

poll-upgrade_example :
    ((poll all_open all_open any_number (bc_command (message 3 9))).effects
      ≡ send 6 (message 3 9) ∷ [])
    × ((poll all_open all_open upgraded (bc_command (message 3 9))).effects
        ≡ send 6 (message 3 9) ∷ [])
unfolding poll_all poll handle_command clean_up route num_key find_sender get_open is_empty get
    insert remove retain retain_values map_values
poll-upgrade_example =
    poll-upgrade 3 9 6 all_open all_open all_open all_open between any_number upgraded (message 3 9)
      (message 3 9)
      (record {
        channels = (0, 6) ∷ [];
        at_id = refl;
        at_none = refl;
        vacant = refl;
        no_handler = refl;
      })
      refl refl refl ((refl, refl, tt), tt) refl refl refl refl refl
