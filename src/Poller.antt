-- ===== src/Poller.antt =====
-- The routing of messages to their subscribers: the `Poller` of src/baichuan/bc_protocol/connection/bcconn.rs. A
-- command from its queue is one step. A channel is a number; the two predicates of a step say which channels are
-- closed when the step cleans up and when it then looks. A send that waits for room, and one to a closed channel, which
-- is ignored, is an effect of the step.
pub mod Sender
pub mod Held
pub mod Reply
pub mod Upgrade
mod Examples
use bairelay.Base.{
  ℕ, suc, Bool, true, false, not, List, [], ◌∷◌, ◌++◌, map, Option, none, some, if◌then◌else◌,
}
use bairelay.Base.BTreeMap.{BTreeMap, get, insert, remove, retain_values, map_values, values}
use bairelay.Bc.Model.{Bc}

abbrev pub Channel : Type 0
Channel = ℕ

-- `Option<u16>` as a key, in its order: `None` first.
unfoldable pub num_key : Option ℕ → ℕ
num_key none = 0
num_key (some n) = suc n

pub record Subscriber (Handler : Type 0) : Type 0 where
  pub num : BTreeMap (BTreeMap Channel)
  pub id : BTreeMap Handler

pub data PollCommand (Handler E X : Type 0) : Type 0 where
  bc_command : Bc E X → PollCommand Handler E X
  bc_error : PollCommand Handler E X
  add_handler : ℕ → Handler → PollCommand Handler E X
  remove_handler : ℕ → PollCommand Handler E X
  add_subscriber : ℕ → Option ℕ → Channel → PollCommand Handler E X
  disconnect : PollCommand Handler E X

-- `simultaneous_subscription` is the error that the refused subscriber is sent.
pub data Effect (Handler E X : Type 0) : Type 0 where
  send : Channel → Bc E X → Effect Handler E X
  send_error : Channel → Effect Handler E X
  spawn_handler : Handler → Bc E X → Effect Handler E X
  simultaneous_subscription : Channel → Option ℕ → Effect Handler E X

-- The state after a step, or that `run` has returned an error, which ends the connection.
pub record Polled (Handler E X : Type 0) : Type 0 where
  pub next : Option (Subscriber Handler)
  pub effects : List (Effect Handler E X)

unfoldable pub is_empty : BTreeMap Channel → Bool
is_empty [] = true
is_empty (entry ∷ channels) = false

-- `channels.retain(|_, channel| !channel.is_closed())`, then `num.retain(|_, channels| !channels.is_empty())`.
unfoldable pub clean_up :
    {Handler : Type 0} → (Channel → Bool) → Subscriber Handler → Subscriber Handler
unfolding is_empty
clean_up closed s = record {
  num =
      retain_values (λ channels. not (is_empty channels))
        (map_values (retain_values (λ channel. not (closed channel))) s.num);
  id = s.id;
}

-- `occ.get(&Some(msg_num)).filter(|a| !a.is_closed())`
unfoldable pub get_open : (Channel → Bool) → ℕ → BTreeMap Channel → Option Channel
unfolding num_key
get_open closed msg_num occ = elim (get (num_key (some msg_num)) occ) [
  | none ↦ none
  | some channel ↦ if closed channel then none else some channel
]

-- The subscriber for a number, and the subscribers of the message's ID after it.
unfoldable pub find_sender :
    (Channel → Bool) → ℕ → BTreeMap Channel → Option Channel × BTreeMap Channel
unfolding get_open num_key
find_sender closed msg_num occ = elim (get_open closed msg_num occ) [
  | some sender ↦ (some sender, occ)
  | none ↦ elim (get (num_key none) occ) [
    | some sender ↦
        (some sender, insert (num_key (some msg_num)) sender (remove (num_key none) occ))
    | none ↦ elim (get (num_key (some msg_num)) occ) [
      | none ↦ (none, occ)
      | some channel ↦
          if closed channel then (none, remove (num_key (some msg_num)) occ) else (none, occ)
    ]
  ]
]

-- `entry(msg_id).or_default()`
unfoldable pub or_default : Option (BTreeMap Channel) → BTreeMap Channel
or_default none = []
or_default (some channels) = channels

module _ {Handler E X : Type 0} where
  unfoldable pub sent : Option Channel → Bc E X → List (Effect Handler E X)
  sent none response = []
  sent (some sender) response = send sender response ∷ []

  unfoldable pub send_errors : List (BTreeMap Channel) → List (Effect Handler E X)
  send_errors [] = []
  send_errors (channels ∷ subs) = map send_error (values channels) ++ send_errors subs

  -- `Ok(response)`
  unfoldable pub route : (Channel → Bool) → Subscriber Handler → Bc E X → Polled Handler E X
  unfolding find_sender sent
  route closed s response = elim (get response.meta.msg_id s.id) [
    | some occ ↦ record { next = some s; effects = spawn_handler occ response ∷ [] }
    | none ↦ elim (get response.meta.msg_id s.num) [
      | none ↦ record { next = some s; effects = [] }
      | some occ ↦
          let (sender, after) = find_sender closed response.meta.msg_num occ in
          record {
            next = some (record s { num = insert response.meta.msg_id after s.num });
            effects = sent sender response;
          }
    ]
  ]

  unfoldable pub subscribe :
      (Channel → Bool) → Subscriber Handler → ℕ → Option ℕ → Channel → Polled Handler E X
  unfolding or_default num_key
  subscribe closed s msg_id msg_num tx =
      let channels = or_default (get msg_id s.num) in
      let added : Polled Handler E X = record {
        next = some (record s { num = insert msg_id (insert (num_key msg_num) tx channels) s.num });
        effects = [];
      } in
      elim (get (num_key msg_num) channels) [
        | none ↦ added
        | some held ↦
            if closed held
            then added
            else record { next = some s; effects = simultaneous_subscription tx msg_num ∷ [] }
      ]

  -- The `match command` of `run`.
  unfoldable pub handle_command :
      (Channel → Bool) → Subscriber Handler → PollCommand Handler E X → Polled Handler E X
  unfolding route subscribe send_errors
  handle_command closed s (bc_command response) = route closed s response
  handle_command closed s bc_error = record { next = none; effects = send_errors (values s.num) }
  handle_command closed s (add_handler msg_id handler) = elim (get msg_id s.id) [
    | none ↦ record { next = some (record s { id = insert msg_id handler s.id }); effects = [] }
    | some held ↦ record { next = none; effects = [] }
  ]
  handle_command closed s (remove_handler msg_id) = record {
    next = some (record s { id = remove msg_id s.id });
    effects = [];
  }
  handle_command closed s (add_subscriber msg_id msg_num tx) = subscribe closed s msg_id msg_num tx
  handle_command closed s disconnect = record { next = none; effects = [] }

  -- One round of `run`.
  unfoldable pub poll :
      (Channel → Bool)
      → (Channel → Bool)
      → Subscriber Handler
      → PollCommand Handler E X
      → Polled Handler E X
  unfolding clean_up handle_command
  poll closed closed_now s command = handle_command closed_now (clean_up closed s) command
