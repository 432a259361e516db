-- ===== src/Poller/Reply.antt =====
-- From a subscription to its reply, through any commands in between.
use bairelay.Base.{
  ℕ, ◌≡◌, ◌≢◌, refl, sym, ap, ◌∙◌, subst, Bool, false, List, [], ◌∷◌, Option, none, some,
  Bool-cases, Option-cases, some_eq, All, inl, inr,
}
use bairelay.Base.BTreeMap.{get}
use bairelay.Bc.Model.{Bc}
use bairelay.Poller.{
  Channel, num_key, Subscriber, PollCommand, bc_command, add_subscriber, Effect, send, Polled,
  clean_up, find_sender, or_default, sent, route, subscribe, handle_command, poll,
}
use bairelay.Poller.Sender.{find_sender-same}
use bairelay.Poller.Held.{Held, clean_up-Held, added-Held, NoHandler, handle_command-Held}

-- A command, with the channels that are closed when the round cleans up and when it looks.
pub record Round (Handler E X : Type 0) : Type 0 where
  pub closed : Channel → Bool
  pub closed_now : Channel → Bool
  pub command : PollCommand Handler E X

module _ {Handler E X : Type 0} where
  -- The state after all these rounds, if none of them has ended the connection.
  unfoldable pub poll_all :
      Option (Subscriber Handler) → List (Round Handler E X) → Option (Subscriber Handler)
  poll_all none rounds = none
  poll_all (some s) [] = some s
  poll_all (some s) (r ∷ rounds) = poll_all (poll r.closed r.closed_now s r.command).next rounds

  -- The channel stays open through the round, whose command is no handler for the ID.
  abbrev pub Keeps : ℕ → Channel → Round Handler E X → Type 0
  Keeps id ch r = (r.closed ch ≡ false) × (r.closed_now ch ≡ false) × NoHandler id r.command

module _ {Handler E X : Type 0} (id n : ℕ) (ch : Channel) where
  pub poll_all-Held :
      (s s' : Subscriber Handler) (rounds : List (Round Handler E X))
      → All (Keeps id ch) rounds
      → Held id n ch s
      → poll_all (some s) rounds ≡ some s'
      → Held id n ch s'
  unfolding poll_all poll
  poll_all-Held s s' [] k h e = subst (Held id n ch) (some_eq e) h
  poll_all-Held s s' (r ∷ rounds) ((alive, alive_now, u), ks) h e =
      let cleaned = clean_up r.closed s in
      elim (Option-cases (handle_command r.closed_now cleaned r.command).next) [
        | inl f ↦ absurd (none-ne-some (ap (λ x. poll_all x rounds) (sym f) ∙ e))
        | inr (t, f) ↦
            poll_all-Held t s' rounds ks
              (handle_command-Held r.closed_now id n ch cleaned t r.command alive_now u
                (clean_up-Held r.closed id n ch s alive h) f)
              (ap (λ x. poll_all x rounds) (sym f) ∙ e)
      ]
    where
      none-ne-some : none ≢ some s'
      none-ne-some f = cc

  -- A subscription that is not refused holds.
  subscribe-added :
      (closed closed_now : Channel → Bool) (s s' : Subscriber Handler) (r : Polled Handler E X)
      → get id s.id ≡ none
      → poll closed closed_now s (add_subscriber id (some n) ch) ≡ r
      → r.effects ≡ []
      → r.next ≡ some s'
      → Held id n ch s'
  unfolding poll handle_command subscribe clean_up
  subscribe-added closed closed_now s s' r none_yet q quiet e =
      let c = clean_up closed s in
      let channels = or_default (get id c.num) in
      let after = ap (λ p. p.next) q ∙ e in
      let fine = ap (λ p. p.effects) q ∙ quiet in
      elim (Option-cases (get (num_key (some n)) channels)) [
        | inl vacant ↦
            subst (Held id n ch) (some_eq (rw (vacant, subscribe) at after))
              (added-Held id n ch c channels none_yet)
        | inr (held, occupied) ↦ elim (Bool-cases (closed_now held)) [
          | inl shut ↦
              subst (Held id n ch) (some_eq (rw shut at (rw (occupied, subscribe) at after)))
                (added-Held id n ch c channels none_yet)
          | inr live ↦ absurd (cons-ne-nil (rw live at (rw (occupied, subscribe) at fine)))
        ]
      ]
    where
      cons-ne-nil : {x : Effect Handler E X} {xs : List (Effect Handler E X)} → (x ∷ xs) ≢ []
      cons-ne-nil f = cc

  pub route_reply :
      (closed : Channel → Bool) (s : Subscriber Handler) (response : Bc E X)
      → closed ch ≡ false
      → Held id n ch s
      → response.meta.msg_id ≡ id
      → response.meta.msg_num ≡ n
      → (route closed s response).effects ≡ send ch response ∷ []
  unfolding route sent
  route_reply closed s response alive h same_id same_num =
      let f : get response.meta.msg_id s.id ≡ none = ap (λ k. get k s.id) same_id ∙ h.no_handler in
      let g : get response.meta.msg_id s.num ≡ some h.channels =
        ap (λ k. get k s.num) same_id ∙ h.at_id in
      let found : find_sender closed response.meta.msg_num h.channels ≡ (some ch, h.channels) =
        ap (λ k. find_sender closed k h.channels) same_num
        ∙ find_sender-same closed n ch h.channels alive h.at_num in
      rw (f, g, route) (ap (λ r. sent r.0 response) found)

  -- A reply reaches its subscriber: once a subscription to a message ID and number is not
  -- refused, and no handler takes that ID, the next message with them is sent to its channel,
  -- whatever commands the poller has processed in between, except an added handler for that ID
  -- and what ends the connection, while the channel stays open.
  pub poll-subscribe :
      (before before_now after after_now : Channel → Bool) (rounds : List (Round Handler E X))
      (s waiting : Subscriber Handler) (response : Bc E X)
      → get id s.id ≡ none
      → (poll {E = E} {X = X} before before_now s (add_subscriber id (some n) ch)).effects ≡ []
      → All (Keeps id ch) rounds
      → poll_all
          (poll {E = E} {X = X} before before_now s (add_subscriber id (some n) ch)).next
          rounds
        ≡ some waiting
      → after ch ≡ false
      → after_now ch ≡ false
      → response.meta.msg_id ≡ id
      → response.meta.msg_num ≡ n
      → (poll after after_now waiting (bc_command response)).effects ≡ send ch response ∷ []
  unfolding poll_all poll handle_command
  poll-subscribe before before_now after after_now rounds s waiting response none_yet quiet keeps
        runs alive alive_now same_id same_num =
      let first : Polled Handler E X = poll before before_now s (add_subscriber id (some n) ch) in
      elim (Option-cases first.next) [
        | inl ended ↦ absurd (none-ne-some (ap (λ x. poll_all x rounds) (sym ended) ∙ runs))
        | inr (t, went) ↦
            let held = subscribe-added before before_now s t first none_yet refl quiet went in
            let still =
              poll_all-Held t waiting rounds keeps held
                (ap (λ x. poll_all x rounds) (sym went) ∙ runs) in
            route_reply after_now (clean_up after waiting) response alive_now
              (clean_up-Held after id n ch waiting alive still) same_id same_num
      ]
    where
      none-ne-some : none ≢ some waiting
      none-ne-some f = cc
