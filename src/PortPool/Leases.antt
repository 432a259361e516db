-- ===== src/PortPool/Leases.antt =====
-- The leases of a port pool, over any sequence of calls.
use bairelay.Base.{
  ℕ, zero, suc, ◌+◌, ◌*◌, ◌%◌, ◌≤◌, ◌<◌, ◌≡◌, refl, sym, ap, ◌∙◌, subst, true, false, List, [], ◌∷◌,
  ◌==◌, leb, if◌then◌else◌, Bool-cases, inl, inr, All, arith,
}
use bairelay.Base.HashSet.{contains, insert, remove, contains-insert, contains-remove, insert_new}
use bairelay.PortPool.{
  Acquired, leased, exhausted, stuck, acquire_loop, acquire, release, pool_start, pool_end,
}

-- An acquire, and the drop of the live lease with an RTP port, if there is one.
pub data Call : Type 0 where
  acquire_call : Call
  drop_call : ℕ → Call

-- The set of the pool, and the RTP ports of the live leases.
pub record World : Type 0 where
  pub used : List ℕ
  pub live : List ℕ

unfoldable pub hand_out : Acquired × List ℕ → List ℕ → World
hand_out (leased lease, used) live = record { used = used; live = lease.rtp_port ∷ live }
hand_out (exhausted, used) live = record { used = used; live = live }
hand_out (stuck, used) live = record { used = used; live = live }

unfoldable pub perform : World → Call → World
unfolding hand_out release
perform w acquire_call = hand_out (acquire w.used) w.live
perform w (drop_call port) =
    if contains port w.live
    then record { used = release port w.used; live = remove port w.live }
    else w

unfoldable pub perform_all : World → List Call → World
perform_all w [] = w
perform_all w (call ∷ calls) = perform_all (perform w call) calls

-- No port is leased twice.
abbrev pub Distinct : List ℕ → Type 0
Distinct [] = Unit {0}
Distinct (p ∷ live) = (contains p live ≡ false) × Distinct live

abbrev IsEven : ℕ → Type 0
IsEven p = p % 2 ≡ 0

abbrev pub IsPair : ℕ → Type 0
IsPair p = (p % 2 ≡ 0) × (pool_start ≤ p) × (p ≤ pool_end)

-- The set is that of the live leases, whose pairs are distinct and of the range.
pub record Sound (w : World) : Type 0 where
  pub same : (n : ℕ) → contains n w.used ≡ contains n w.live
  pub distinct : Distinct w.live
  pub pairs : All IsPair w.live

-- What an acquire must give: the least pair that no live lease has, or that there is none.
abbrev pub LeastFree : List ℕ → Acquired → Type 0
LeastFree live (leased lease) =
    IsPair lease.rtp_port
    × (lease.rtcp_port ≡ lease.rtp_port + 1)
    × (contains lease.rtp_port live ≡ false)
    × ((q : ℕ) → IsPair q → q < lease.rtp_port → contains q live ≡ true)
LeastFree live exhausted = (q : ℕ) → IsPair q → contains q live ≡ true
LeastFree live stuck = ⊥

-- What it does to the set.
abbrev Marks : List ℕ → Acquired × List ℕ → Type 0
Marks used (leased lease, after) = after ≡ insert lease.rtp_port used
Marks used (exhausted, after) = after ≡ used
Marks used (stuck, after) = after ≡ used

-- The loop, with every pair below its port taken.
acquire_loop_lem :
    (fuel port : ℕ) (used : List ℕ)
    → IsEven port
    → pool_start ≤ port
    → port ≤ pool_end + 2
    → pool_end + 2 < port + 2 * fuel
    → ((q : ℕ) → IsPair q → q < port → contains q used ≡ true)
    → LeastFree used (acquire_loop fuel port used).0 × Marks used (acquire_loop fuel port used)
unfolding acquire_loop
acquire_loop_lem zero port used even lo hi enough taken = absurd (omega (arith, hi, enough))
acquire_loop_lem (suc fuel) port used even lo hi enough taken =
    elim (Bool-cases (leb port pool_end)) [
      | inr e ↦
          let all : LeastFree used exhausted = λ q h. taken q h (ground (arith, e, h.2)) in
          rw e (all, refl)
      | inl e ↦ elim (Bool-cases (contains port used)) [
        | inr f ↦
            let least : LeastFree used (leased (record { rtp_port = port; rtcp_port = port + 1 })) =
              ((even, lo, ground (arith, e)), refl, f, taken) in
            rw e (rw f (least, insert_new port used f))
        | inl f ↦ rw e (
            rw f (
              acquire_loop_lem fuel (port + 2) used (omega (arith, even)) (omega (arith, lo))
                (ground (arith, even, e)) (omega (arith, enough))
                (λ q h l. elim (Bool-cases (q == port)) [
                  | inl g ↦
                      let same : port ≡ q = ground (arith, g) in
                      subst (λ x. contains x used ≡ true) same f
                  | inr g ↦ taken q h (ground (arith, g, l, h.0, even))
                ])))
      ]
    ]

acquire_lem : (used : List ℕ) → LeastFree used (acquire used).0 × Marks used (acquire used)
unfolding acquire
acquire_lem used =
    acquire_loop_lem 501 pool_start used (omega arith) (omega arith) (omega arith) (omega arith)
      (λ q h l. absurd (omega (arith, h.1, l)))

-- What is least free for one set is least free for another with the same elements.
LeastFree-same :
    (used live : List ℕ) (r : Acquired)
    → ((n : ℕ) → contains n used ≡ contains n live)
    → LeastFree used r
    → LeastFree live r
LeastFree-same used live (leased lease) same (pair, next, free, least) =
    (pair, next, sym (same lease.rtp_port) ∙ free, λ q h l. sym (same q) ∙ least q h l)
LeastFree-same used live exhausted same all = λ q h. sym (same q) ∙ all q h
LeastFree-same used live stuck same none = none

Sound-hand_out :
    (w : World) (r : Acquired × List ℕ)
    → Sound w
    → LeastFree w.live r.0
    → Marks w.used r
    → Sound (hand_out r w.live)
unfolding hand_out contains
Sound-hand_out w (leased lease, after) s (pair, next, free, least) m = record {
  same = λ n.
      ap (contains n) m
      ∙ contains-insert n lease.rtp_port w.used
      ∙ ap (λ b. if lease.rtp_port == n then true else b) (s.same n);
  distinct = (free, s.distinct);
  pairs = (pair, s.pairs);
}
Sound-hand_out w (exhausted, after) s all m = record {
  same = λ n. ap (contains n) m ∙ s.same n;
  distinct = s.distinct;
  pairs = s.pairs;
}
Sound-hand_out w (stuck, after) s none m = absurd none

Distinct-remove : (p : ℕ) (live : List ℕ) → Distinct live → Distinct (remove p live)
unfolding remove
Distinct-remove p [] d = tt
Distinct-remove p (m ∷ live) (absent, d) = elim (Bool-cases (m == p)) [
  | inl e ↦ rw e (Distinct-remove p live d)
  | inr e ↦ rw e ((contains-remove m p live ∙ ground (arith, absent)), Distinct-remove p live d)
]

pairs-remove : (p : ℕ) (live : List ℕ) → All IsPair live → All IsPair (remove p live)
unfolding remove
pairs-remove p [] h = tt
pairs-remove p (m ∷ live) (pair, h) = elim (Bool-cases (m == p)) [
  | inl e ↦ rw e (pairs-remove p live h)
  | inr e ↦ rw e (pair, pairs-remove p live h)
]

Sound-perform : (w : World) (call : Call) → Sound w → Sound (perform w call)
unfolding perform release
Sound-perform w acquire_call s =
    let (least, marks) = acquire_lem w.used in
    Sound-hand_out w (acquire w.used) s (LeastFree-same w.used w.live _ s.same least) marks
Sound-perform w (drop_call port) s = elim (Bool-cases (contains port w.live)) [
  | inr e ↦ rw e s
  | inl e ↦ rw e (record {
    same = λ n.
        contains-remove n port w.used
        ∙ ap (λ b. if port == n then false else b) (s.same n)
        ∙ sym (contains-remove n port w.live);
    distinct = Distinct-remove port w.live s.distinct;
    pairs = pairs-remove port w.live s.pairs;
  })
]

Sound-perform_all : (w : World) (calls : List Call) → Sound w → Sound (perform_all w calls)
unfolding perform_all
Sound-perform_all w [] s = s
Sound-perform_all w (call ∷ calls) s =
    Sound-perform_all (perform w call) calls (Sound-perform w call s)

-- `UdpPortPool::new`
abbrev pub new_pool : World
new_pool = record { used = []; live = [] }

-- Over any acquires and drops the port pool holds exactly the ports of the live leases, which
-- are distinct and even and lie in its range, and the next acquire gives the least pair that no
-- live lease has, with the odd port behind it, or reports exhaustion only where live leases have
-- them all; its loop ends.
pub acquire-perform_all :
    (calls : List Call)
    → let w = perform_all new_pool calls in Sound w × LeastFree w.live (acquire w.used).0
acquire-perform_all calls =
    let w = perform_all new_pool calls in
    let s =
      Sound-perform_all new_pool calls (record { same = λ n. refl; distinct = tt; pairs = tt }) in
    let (least, marks) = acquire_lem w.used in (s, LeastFree-same w.used w.live _ s.same least)
