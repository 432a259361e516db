-- ===== src/Bc/Codex/Session.antt =====
-- What the codec of Baichuan messages remembers of a session: its encryption and its binary streams.
use bairelay.Base.{
  ℕ, ◌/◌, ◌≡◌, ◌≢◌, refl, ap, ◌∙◌, Bool, true, false, not, ◌&&◌, List, [], ◌∷◌, none, some, ◌==◌,
  if◌then◌else◌, Bool-cases, inl, inr, All, arith,
}
use bairelay.Base.HashSet.{contains, contains-insert, contains-remove}
use bairelay.Wire.CookieFactory.{CookieFactory}
use bairelay.Bc.Crypto.{AesCfb, Md5, bc_encrypt, full_aes_with_iv}
use bairelay.Bc.Model.{Bc, BcMeta}
use bairelay.Bc.Context.{BcXmls, BcContext}
use bairelay.Bc.Codex.{
  BcCodex, frame, set_encrypted, binary_on, binary_off, resolve_pending, signed_login_aes, arm,
  encode, on_off, settle, switch_binary,
}
use bairelay.Bc.Codex.Framing.{settle_plain}

contains-binary_off :
    (n m : ℕ) (context : BcContext)
    → contains n (binary_off m context).in_bin_mode
      ≡ (if m == n then false else contains n context.in_bin_mode)
unfolding binary_off
contains-binary_off n m context = contains-remove n m context.in_bin_mode

contains-binary_on :
    (n m : ℕ) (context : BcContext)
    → contains n (binary_on m context).in_bin_mode
      ≡ (if m == n then true else contains n context.in_bin_mode)
unfolding binary_on
contains-binary_on n m context = contains-insert n m context.in_bin_mode

resolve_pending_other :
    (codex : BcCodex) (meta : BcMeta) → meta.msg_id ≢ 1 → resolve_pending codex meta ≡ codex
unfolding resolve_pending
resolve_pending_other codex meta h = ground (arith, h)

resolve_pending_reply :
    (codex : BcCodex) (meta : BcMeta) (msg_num : ℕ) (key iv : List ℕ)
    → codex.pending_session_aes ≡ some (msg_num, key, iv)
    → meta.msg_id ≡ 1
    → meta.msg_num ≡ msg_num
    → ((resolve_pending codex meta).context.encryption_protocol ≡ (
        if meta.response_code == 200
        then full_aes_with_iv key iv
        else codex.context.encryption_protocol))
      × ((resolve_pending codex meta).pending_session_aes ≡ none)
unfolding resolve_pending set_encrypted
resolve_pending_reply codex meta msg_num key iv armed id num =
    let t : ((meta.msg_id == 1) && (meta.msg_num == msg_num)) ≡ true = ground (arith, id, num) in
    rw (armed, resolve_pending)
      (rw t (elim (Bool-cases (meta.response_code == 200)) [
        | inl e ↦ rw e (refl, refl)
        | inr e ↦ rw e (refl, refl)
      ]))

module _ (xml : BcXmls) (md5 : Md5) where
  open xml use {Extension, BcXml}

  -- The codec after all of these messages.
  unfoldable pub settle_all : BcCodex → List (Bc Extension BcXml) → BcCodex
  settle_all codex [] = codex
  settle_all codex (bc ∷ bcs) = settle_all (settle xml md5 codex bc).1 bcs

  abbrev pub NoLogin : Bc Extension BcXml → Type 0
  NoLogin bc = bc.meta.msg_id ≢ 1

  settle_other :
      (codex : BcCodex) (bc : Bc Extension BcXml)
      → NoLogin bc
      → settle xml md5 codex bc ≡ (frame bc, switch_binary xml codex bc)
  settle_other codex bc h =
      settle_plain xml md5 codex bc (λ e. absurd (h e))
      ∙ ap (λ c. (frame bc, switch_binary xml c bc)) (resolve_pending_other codex bc.meta h)

  settle_all_step :
      (codex : BcCodex) (bc : Bc Extension BcXml) (bcs : List (Bc Extension BcXml))
      → NoLogin bc
      → settle_all codex (bc ∷ bcs) ≡ settle_all (switch_binary xml codex bc) bcs
  unfolding settle_all
  settle_all_step codex bc bcs h = ap (λ r. settle_all r.1 bcs) (settle_other codex bc h)

  switch_binary_keeps :
      (codex : BcCodex) (bc : Bc Extension BcXml)
      → ((switch_binary xml codex bc).context.encryption_protocol
          ≡ codex.context.encryption_protocol)
        × ((switch_binary xml codex bc).pending_session_aes ≡ codex.pending_session_aes)
  unfolding switch_binary binary_on binary_off
  switch_binary_keeps codex bc = ground arith

  settle_all_keeps :
      (codex : BcCodex) (bcs : List (Bc Extension BcXml))
      → All NoLogin bcs
      → ((settle_all codex bcs).context.encryption_protocol ≡ codex.context.encryption_protocol)
        × ((settle_all codex bcs).pending_session_aes ≡ codex.pending_session_aes)
  unfolding settle_all
  settle_all_keeps codex [] h = (refl, refl)
  settle_all_keeps codex (bc ∷ bcs) (h, hs) =
      let (e, p) = switch_binary_keeps codex bc in
      let (f, q) = settle_all_keeps (switch_binary xml codex bc) bcs hs in
      let step = settle_all_step codex bc bcs h in
      (
        ap (λ c. c.context.encryption_protocol) step ∙ f ∙ e,
        ap (λ c. c.pending_session_aes) step ∙ q ∙ p,
      )

  -- A signed login pins the session to BCEncrypt until its own reply: whatever other messages,
  -- no logins, are decoded in between, the session stays there, and the reply with its number,
  -- of any code that negotiates nothing, switches it to full AES under the key of the login if
  -- the code is 200, and otherwise leaves it at BCEncrypt; the key is forgotten either way.
  pub settle-encode :
      (cfb : AesCfb) (cf : CookieFactory) (codex : BcCodex) (login reply : Bc Extension BcXml)
      (dst key iv : List ℕ) (others : List (Bc Extension BcXml))
      → signed_login_aes xml login.body ≡ some (some (key, iv))
      → All NoLogin others
      → reply.meta.msg_id ≡ 1
      → reply.meta.msg_num ≡ login.meta.msg_num
      → reply.meta.response_code / 256 ≢ 0xdd
      → let waiting = settle_all (encode xml cfb cf codex login dst).0 others in
        let after = (settle xml md5 waiting reply).1 in
        (waiting.context.encryption_protocol ≡ bc_encrypt)
        × (after.context.encryption_protocol
            ≡ (if reply.meta.response_code == 200 then full_aes_with_iv key iv else bc_encrypt))
        × (after.pending_session_aes ≡ none)
  unfolding encode arm set_encrypted
  settle-encode cfb cf codex login reply dst key iv others signed plain id num code =
      let armed : BcCodex = record {
        context = set_encrypted bc_encrypt codex.context;
        pending_session_aes = some (login.meta.msg_num, key, iv);
      } in
      let starts : (encode xml cfb cf codex login dst).0 ≡ armed = rw (signed, arm) refl in
      let waiting = settle_all (encode xml cfb cf codex login dst).0 others in
      let (f, q) = settle_all_keeps (encode xml cfb cf codex login dst).0 others plain in
      let pinned : waiting.context.encryption_protocol ≡ bc_encrypt =
        f ∙ ap (λ c. c.context.encryption_protocol) starts in
      let pending : waiting.pending_session_aes ≡ some (login.meta.msg_num, key, iv) =
        q ∙ ap (λ c. c.pending_session_aes) starts in
      let (g, r) =
        resolve_pending_reply waiting reply.meta login.meta.msg_num key iv pending id num in
      let (h, k) = switch_binary_keeps (resolve_pending waiting reply.meta) reply in
      let last = settle_plain xml md5 waiting reply (λ e. code) in
      (
        pinned,
        ap (λ c. c.1.context.encryption_protocol) last
            ∙ h
            ∙ g
            ∙ ap (λ p. if reply.meta.response_code == 200 then full_aes_with_iv key iv else p)
                pinned,
        ap (λ c. c.1.pending_session_aes) last ∙ k ∙ r,
      )

  -- Whether the last of the messages that says so switched a stream's payloads to binary.
  unfoldable pub last_said : ℕ → List (Bc Extension BcXml) → Bool → Bool
  last_said n [] on = on
  last_said n (bc ∷ bcs) on = last_said n bcs (
      if bc.meta.msg_num == n
      then (elim (on_off xml bc.body) [ none ↦ on | some k ↦ not (k == 0) ])
      else on)

  contains-switch_binary :
      (n : ℕ) (codex : BcCodex) (bc : Bc Extension BcXml)
      → contains n (switch_binary xml codex bc).context.in_bin_mode ≡ (
          if bc.meta.msg_num == n
          then (elim (on_off xml bc.body) [
            | none ↦ contains n codex.context.in_bin_mode
            | some k ↦ not (k == 0)
          ])
          else contains n codex.context.in_bin_mode)
  unfolding switch_binary
  contains-switch_binary n codex bc = ground (
    arith,
    contains-binary_on n bc.meta.msg_num codex.context,
    contains-binary_off n bc.meta.msg_num codex.context,
  )

  -- The set of binary streams implements one switch per message number: after any messages that
  -- are no logins, the payloads of a number are taken as binary if the last message of that
  -- number whose extension says so says it, and as before if none does.
  pub contains-settle_all :
      (n : ℕ) (codex : BcCodex) (bcs : List (Bc Extension BcXml))
      → All NoLogin bcs
      → contains n (settle_all codex bcs).context.in_bin_mode
        ≡ last_said n bcs (contains n codex.context.in_bin_mode)
  unfolding settle_all last_said
  contains-settle_all n codex [] h = refl
  contains-settle_all n codex (bc ∷ bcs) (h, hs) =
      ap (λ c. contains n c.context.in_bin_mode) (settle_all_step codex bc bcs h)
      ∙ contains-settle_all n (switch_binary xml codex bc) bcs hs
      ∙ ap (last_said n bcs) (contains-switch_binary n codex bc)
