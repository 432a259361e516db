-- ===== src/Poller/Sender.antt =====
-- Which channel `find_sender` of src/baichuan/bc_protocol/connection/bcconn.rs takes while one is subscribed to a number.
use bairelay.Base.{
  ℕ, suc, ◌≡◌, refl, ◌∙◌, Bool, false, some, ◌==◌, Bool-cases, Option-cases, inl, inr, arith,
}
use bairelay.Base.BTreeMap.{BTreeMap, get, remove, get-insert, get-remove}
use bairelay.Poller.{Channel, num_key, get_open, find_sender}

get_open-same :
    (closed : Channel → Bool) (n : ℕ) (ch : Channel) (occ : BTreeMap Channel)
    → closed ch ≡ false
    → get (num_key (some n)) occ ≡ some ch
    → get_open closed n occ ≡ some ch
unfolding get_open
get_open-same closed n ch occ alive e = rw (e, get_open) (rw alive refl)

pub find_sender-same :
    (closed : Channel → Bool) (n : ℕ) (ch : Channel) (occ : BTreeMap Channel)
    → closed ch ≡ false
    → get (num_key (some n)) occ ≡ some ch
    → find_sender closed n occ ≡ (some ch, occ)
unfolding find_sender
find_sender-same closed n ch occ alive e =
    rw (get_open-same closed n ch occ alive e, find_sender) refl

-- A message of another number takes nothing away.
pub find_sender-other :
    (closed : Channel → Bool) (m n : ℕ) (ch : Channel) (occ : BTreeMap Channel)
    → (m == n) ≡ false
    → get (num_key (some n)) occ ≡ some ch
    → get (num_key (some n)) (find_sender closed m occ).1 ≡ some ch
unfolding find_sender num_key
find_sender-other closed m n ch occ other e =
    let away : (suc m == suc n) ≡ false = ground (arith, other) in
    let first : (suc n == 0) ≡ false = ground arith in
    let back : (suc n == suc m) ≡ false = ground (arith, other) in
    elim (Option-cases (get_open closed m occ)) [
      | inr (c, o) ↦ rw (o, find_sender) e
      | inl o ↦
          rw (o, find_sender)
            (elim (Option-cases (get 0 occ)) [
              | inr (c, z) ↦
                  rw (z, find_sender)
                    (get-insert (suc m) (suc n) c (remove 0 occ)
                      ∙ rw away (get-remove 0 (suc n) occ ∙ rw first e))
              | inl z ↦
                  rw (z, find_sender)
                    (elim (Option-cases (get (suc m) occ)) [
                      | inl g ↦ rw (g, find_sender) e
                      | inr (c, g) ↦
                          rw (g, find_sender)
                            (elim (Bool-cases (closed c)) [
                              | inl shut ↦ rw shut (get-remove (suc m) (suc n) occ ∙ rw back e)
                              | inr live ↦ rw live e
                            ])
                    ])
            ])
    ]
