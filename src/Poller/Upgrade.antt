-- ===== src/Poller/Upgrade.antt =====
-- A subscription to an ID alone takes the number of the first message.
use bairelay.Base.{
  ℕ, ◌≡◌, refl, sym, ap, ◌∙◌, Bool, false, not, List, [], ◌∷◌, none, some, ==_refl, ◌==◌, All,
  if◌then◌else◌,
}
use bairelay.Base.BTreeMap.{
  BTreeMap, get, insert, remove, get-insert, retain_values, get-retain_values,
  get-retain_values-none, get-map_values,
}
use bairelay.Bc.Model.{Bc}
use bairelay.Poller.{
  Channel, num_key, Subscriber, bc_command, send, Polled, clean_up, get_open, find_sender, sent,
  route, handle_command, poll,
}
use bairelay.Poller.Held.{Held, clean_up-Held, get-nonempty}
use bairelay.Poller.Reply.{Round, poll_all, Keeps, poll_all-Held, route_reply}

-- The channel waits for any message with the ID, and nobody for the number.
pub record Waits {Handler : Type 0} (id n : ℕ) (ch : Channel) (s : Subscriber Handler)
    : Type 0 where
  pub channels : BTreeMap Channel
  pub at_id : get id s.num ≡ some channels
  pub at_none : get (num_key none) channels ≡ some ch
  pub vacant : get (num_key (some n)) channels ≡ none
  pub no_handler : get id s.id ≡ none

clean_up-Waits :
    {Handler : Type 0} (closed : Channel → Bool) (id n : ℕ) (ch : Channel) (s : Subscriber Handler)
    → closed ch ≡ false
    → Waits id n ch s
    → Waits id n ch (clean_up closed s)
unfolding clean_up
clean_up-Waits closed id n ch s alive w =
    let kept =
      get-retain_values (λ c. not (closed c)) (num_key none) ch w.channels w.at_none
        (ap not alive) in
    record {
      channels = retain_values (λ c. not (closed c)) w.channels;
      at_id =
          get-retain_values _ id _ _ (get-map_values _ id w.channels s.num w.at_id)
            (get-nonempty _ ch _ kept);
      at_none = kept;
      vacant = get-retain_values-none _ (num_key (some n)) w.channels w.vacant;
      no_handler = w.no_handler;
    }

find_sender-none :
    (closed : Channel → Bool) (n : ℕ) (ch : Channel) (occ : BTreeMap Channel)
    → get (num_key none) occ ≡ some ch
    → get (num_key (some n)) occ ≡ none
    → find_sender closed n occ ≡ (some ch, insert (num_key (some n)) ch (remove (num_key none) occ))
unfolding find_sender
find_sender-none closed n ch occ e vacant =
    let nobody : get_open closed n occ ≡ none = unfold get_open in rw (vacant, get_open) refl in
    rw (nobody, find_sender) (rw (e, find_sender) refl)

module _ {Handler E X : Type 0} (id n : ℕ) (ch : Channel) where
  -- The message goes to the waiting channel, which then holds the number.
  record Upgraded (r : Polled Handler E X) (response : Bc E X) : Type 0 where
    next : Subscriber Handler
    went : r.next ≡ some next
    held : Held id n ch next
    effects : r.effects ≡ send ch response ∷ []

  Upgraded-route :
      (closed : Channel → Bool) (s : Subscriber Handler) (response : Bc E X)
      → Waits id n ch s
      → response.meta.msg_id ≡ id
      → response.meta.msg_num ≡ n
      → Upgraded (route closed s response) response
  unfolding route sent
  Upgraded-route closed s response w same_id same_num =
      let k = response.meta.msg_id in
      let f : get k s.id ≡ none = ap (λ x. get x s.id) same_id ∙ w.no_handler in
      let g : get k s.num ≡ some w.channels = ap (λ x. get x s.num) same_id ∙ w.at_id in
      let upgraded = insert (num_key (some n)) ch (remove (num_key none) w.channels) in
      let found : find_sender closed response.meta.msg_num w.channels ≡ (some ch, upgraded) =
        ap (λ x. find_sender closed x w.channels) same_num
        ∙ find_sender-none closed n ch w.channels w.at_none w.vacant in
      record {
        next = record s { num = insert k upgraded s.num };
        went = rw (f, g, route) (ap (λ r. some (record s { num = insert k r.1 s.num })) found);
        held = record {
          channels = upgraded;
          at_id =
              get-insert k id upgraded s.num
              ∙ ap (λ x. if x == id then some upgraded else get id s.num) same_id
              ∙ rw (==_refl id) refl;
          at_num =
              get-insert (num_key (some n)) (num_key (some n)) ch (remove (num_key none) w.channels)
              ∙ rw (==_refl (num_key (some n))) refl;
          no_handler = w.no_handler;
        };
        effects = rw (f, g, route) (ap (λ r. sent r.0 response) found);
      }

  -- A subscription to a message ID alone, with no handler for the ID and no subscriber for a
  -- number, is sent the first message with that ID and number, and from then on also the next
  -- ones with that number, whatever commands come in between, except an added handler for that
  -- ID and what ends the connection, while the channel stays open.
  pub poll-upgrade :
      (before before_now after after_now : Channel → Bool) (rounds : List (Round Handler E X))
      (s waiting : Subscriber Handler) (first response : Bc E X)
      → Waits id n ch s
      → before ch ≡ false
      → first.meta.msg_id ≡ id
      → first.meta.msg_num ≡ n
      → All (Keeps id ch) rounds
      → poll_all (poll before before_now s (bc_command first)).next rounds ≡ some waiting
      → after ch ≡ false
      → after_now ch ≡ false
      → response.meta.msg_id ≡ id
      → response.meta.msg_num ≡ n
      → ((poll before before_now s (bc_command first)).effects ≡ send ch first ∷ [])
        × ((poll after after_now waiting (bc_command response)).effects ≡ send ch response ∷ [])
  unfolding poll handle_command
  poll-upgrade before before_now after after_now rounds s waiting first response w alive first_id
        first_num keeps runs open_after open_now same_id same_num =
      let u =
        Upgraded-route before_now (clean_up before s) first
          (clean_up-Waits before id n ch s alive w) first_id first_num in
      let still =
        poll_all-Held id n ch u.next waiting rounds keeps u.held
          (ap (λ x. poll_all x rounds) (sym u.went) ∙ runs) in
      (
        u.effects,
        route_reply id n ch after_now (clean_up after waiting) response open_now
            (clean_up-Held after id n ch waiting open_after still) same_id same_num,
      )
