-- ===== src/Poller/Held.antt =====
-- A subscription of a message number holds through any command.
use bairelay.Base.{
  ℕ, ◌≡◌, ◌≢◌, refl, sym, ap, ◌∙◌, subst, Bool, true, false, not, [], ◌∷◌, Option, none, some, ◌==◌,
  ==_refl, ==_iff, Bool-cases, Option-cases, some_eq, inl, inr, arith,
}
use bairelay.Base.BTreeMap.{
  BTreeMap, get, insert, get-insert, get-remove, retain_values, get-retain_values, get-map_values,
}
use bairelay.Bc.Model.{Bc}
use bairelay.Poller.{
  Channel, num_key, Subscriber, PollCommand, bc_command, bc_error, add_handler, remove_handler,
  add_subscriber, disconnect, Polled, is_empty, clean_up, find_sender, or_default, route, subscribe,
  handle_command,
}
use bairelay.Poller.Sender.{find_sender-same, find_sender-other}

-- The channel is subscribed to the number under the ID, and no handler takes the ID's messages.
pub record Held {Handler : Type 0} (id n : ℕ) (ch : Channel) (s : Subscriber Handler) : Type 0 where
  pub channels : BTreeMap Channel
  pub at_id : get id s.num ≡ some channels
  pub at_num : get (num_key (some n)) channels ≡ some ch
  pub no_handler : get id s.id ≡ none

pub get-nonempty :
    (k : ℕ) (v : Channel) (m : BTreeMap Channel) → get k m ≡ some v → not (is_empty m) ≡ true
unfolding get is_empty
get-nonempty k v [] e = cc
get-nonempty k v (entry ∷ m) e = refl

pub clean_up-Held :
    {Handler : Type 0} (closed : Channel → Bool) (id n : ℕ) (ch : Channel) (s : Subscriber Handler)
    → closed ch ≡ false
    → Held id n ch s
    → Held id n ch (clean_up closed s)
unfolding clean_up
clean_up-Held closed id n ch s alive h =
    let kept =
      get-retain_values (λ c. not (closed c)) (num_key (some n)) ch h.channels h.at_num
        (ap not alive) in
    record {
      channels = retain_values (λ c. not (closed c)) h.channels;
      at_id =
          get-retain_values _ id _ _ (get-map_values _ id h.channels s.num h.at_id)
            (get-nonempty _ ch _ kept);
      at_num = kept;
      no_handler = h.no_handler;
    }

module _ {Handler : Type 0} (id n : ℕ) (ch : Channel) where
  -- Setting another ID's subscribers, or this one's with the channel still there.
  insert-Held :
      (s : Subscriber Handler) (k : ℕ) (channels : BTreeMap Channel)
      → Held id n ch s
      → ((k == id) ≡ true → get (num_key (some n)) channels ≡ some ch)
      → Held id n ch (record s { num = insert k channels s.num })
  insert-Held s k channels h there = elim (Bool-cases (k == id)) [
    | inl e ↦ record {
      channels = channels;
      at_id = get-insert k id channels s.num ∙ rw e refl;
      at_num = there e;
      no_handler = h.no_handler;
    }
    | inr e ↦ record {
      channels = h.channels;
      at_id = get-insert k id channels s.num ∙ rw e h.at_id;
      at_num = h.at_num;
      no_handler = h.no_handler;
    }
  ]

  -- Adding the channel under the number.
  pub added-Held :
      (s : Subscriber Handler) (channels : BTreeMap Channel)
      → get id s.id ≡ none
      → Held id n ch (record s { num = insert id (insert (num_key (some n)) ch channels) s.num })
  added-Held s channels h = record {
    channels = insert (num_key (some n)) ch channels;
    at_id = get-insert id id _ s.num ∙ rw (==_refl id) refl;
    at_num =
        get-insert (num_key (some n)) (num_key (some n)) ch channels
        ∙ rw (==_refl (num_key (some n))) refl;
    no_handler = h;
  }

module _ {Handler E X : Type 0} (id : ℕ) where
  -- The command is no handler for the ID.
  abbrev pub NoHandler : PollCommand Handler E X → Type 0
  NoHandler (add_handler k handler) = k ≢ id
  NoHandler (bc_command response) = Unit {0}
  NoHandler bc_error = Unit {0}
  NoHandler (remove_handler k) = Unit {0}
  NoHandler (add_subscriber k m tx) = Unit {0}
  NoHandler disconnect = Unit {0}

module _ {Handler E X : Type 0} (closed : Channel → Bool) (id n : ℕ) (ch : Channel) where
  route-Held :
      (s s' : Subscriber Handler) (response : Bc E X)
      → closed ch ≡ false
      → Held id n ch s
      → (route closed s response).next ≡ some s'
      → Held id n ch s'
  unfolding route
  route-Held s s' response alive h e =
      let k = response.meta.msg_id in
      let m = response.meta.msg_num in
      elim (Option-cases (get k s.id)) [
        | inr (handler, f) ↦ subst (Held id n ch) (some_eq (rw (f, route) at e)) h
        | inl f ↦ elim (Option-cases (get k s.num)) [
          | inl g ↦ subst (Held id n ch) (some_eq (rw (f, g, route) at e)) h
          | inr (occ, g) ↦
              let after = (find_sender closed m occ).1 in
              let kept : (k == id) ≡ true → get (num_key (some n)) after ≡ some ch = λ same.
                let is : occ ≡ h.channels =
                  some_eq (sym g ∙ ap (λ x. get x s.num) (ground (arith, same)) ∙ h.at_id) in
                let has : get (num_key (some n)) occ ≡ some ch =
                  ap (get (num_key (some n))) is ∙ h.at_num in
                elim (Bool-cases (m == n)) [
                  | inr other ↦ find_sender-other closed m n ch occ other has
                  | inl this ↦
                      let eq : n ≡ m = ground (arith, this) in
                      subst (λ x. get (num_key (some n)) (find_sender closed x occ).1 ≡ some ch) eq
                        (ap (λ r. get (num_key (some n)) r.1)
                            (find_sender-same closed n ch occ alive has)
                          ∙ has)
                ] in
              subst (Held id n ch) (some_eq (rw (f, g, route) at e))
                (insert-Held id n ch s k after h kept)
        ]
      ]

  subscribe-Held :
      (s s' : Subscriber Handler) (k : ℕ) (m : Option ℕ) (tx : Channel) (r : Polled Handler E X)
      → closed ch ≡ false
      → Held id n ch s
      → subscribe closed s k m tx ≡ r
      → r.next ≡ some s'
      → Held id n ch s'
  unfolding subscribe
  subscribe-Held s s' k m tx r alive h q e =
      let channels = or_default (get k s.num) in
      let there : (k == id) ≡ true → get (num_key (some n)) channels ≡ some ch = λ same.
        ap (λ x. get (num_key (some n)) (or_default (get x s.num))) (ground (arith, same))
        ∙ ap (λ x. get (num_key (some n)) (or_default x)) h.at_id
        ∙ unfold or_default in h.at_num in
      let added : get (num_key m) channels ≢ some ch
          → Held id n ch (record s { num = insert k (insert (num_key m) tx channels) s.num }) =
        λ free. insert-Held id n ch s k (insert (num_key m) tx channels) h (λ same.
          elim (Bool-cases (num_key m == num_key (some n))) [
            | inr away ↦
                get-insert (num_key m) (num_key (some n)) tx channels ∙ rw away (there same)
            | inl eq ↦ absurd (
                free (
                  ap (λ x. get x channels) ((==_iff (num_key m) (num_key (some n))).0 eq)
                  ∙ there same))
          ]) in
      let after = ap (λ p. p.next) q ∙ e in
      elim (Option-cases (get (num_key m) channels)) [
        | inl vacant ↦
            subst (Held id n ch) (some_eq (rw (vacant, subscribe) at after))
              (added (λ f. none-ne-some (sym vacant ∙ f)))
        | inr (held, occupied) ↦ elim (Bool-cases (closed held)) [
          | inl shut ↦
              subst (Held id n ch) (some_eq (rw shut at (rw (occupied, subscribe) at after))) (
                added
                  (λ f. true-ne-false (sym shut ∙ ap closed (some_eq (sym occupied ∙ f)) ∙ alive)))
          | inr live ↦
              subst (Held id n ch) (some_eq (rw live at (rw (occupied, subscribe) at after))) h
        ]
      ]
    where
      none-ne-some : none ≢ some ch
      none-ne-some f = cc

      true-ne-false : true ≢ false
      true-ne-false f = cc

  pub handle_command-Held :
      (s s' : Subscriber Handler) (command : PollCommand Handler E X)
      → closed ch ≡ false
      → NoHandler id command
      → Held id n ch s
      → (handle_command closed s command).next ≡ some s'
      → Held id n ch s'
  unfolding handle_command
  handle_command-Held s s' (bc_command response) alive u h e = route-Held s s' response alive h e
  handle_command-Held s s' bc_error alive u h e = cc
  handle_command-Held s s' disconnect alive u h e = cc
  handle_command-Held s s' (add_subscriber k m tx) alive u h e =
      subscribe-Held s s' k m tx _ alive h refl e
  handle_command-Held s s' (remove_handler k) alive u h e =
      subst (Held id n ch) (some_eq e) (record {
        channels = h.channels;
        at_id = h.at_id;
        at_num = h.at_num;
        no_handler = get-remove k id s.id ∙ ground (arith, h.no_handler);
      })
  handle_command-Held s s' (add_handler k handler) alive u h e = elim (Option-cases (get k s.id)) [
    | inr (held, f) ↦ absurd (none-ne-some (rw (f, handle_command) at e))
    | inl f ↦ subst (Held id n ch) (some_eq (rw (f, handle_command) at e)) (record {
      channels = h.channels;
      at_id = h.at_id;
      at_num = h.at_num;
      no_handler = get-insert k id handler s.id ∙ ground (arith, u, h.no_handler);
    })
  ]
    where
      none-ne-some : none ≢ some s'
      none-ne-some f = cc
