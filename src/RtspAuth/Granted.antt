-- ===== src/RtspAuth/Granted.antt =====
-- Who is let in.
use bairelay.Base.{
  ℕ, ◌-◌, ◌<◌, ◌≡◌, ◌⊎◌, inl, inr, refl, ap, ◌∙◌, Bool, true, false, not, ◌&&◌, List, Option, none,
  some, Bool-cases, arith,
}
use bairelay.Base.HashMap.{HashMap, str_eq, str_eq_eq, starts_with, get}
use bairelay.RtspAuth.Text.{codes, to_ascii_lowercase, trim, split_once}
use bairelay.RtspAuth.Header.{
  Checked, ok, err, panicked, ok_or, missing, malformed, unknown_scheme, bad_credentials,
  stale_nonce, strip_prefix_ignore_case, parse_digest_params,
}
use bairelay.RtspAuth.{
  Nonce, is_stale, Codecs, verify_basic, verify_digest, accepted, ConnectionState, nonce_ttl,
  on_basic, on_digest, authenticate,
}
use bairelay.RtspAuth.Responds.{
  Knows, matched-Knows, >>=-split, ok_or-ok, Responds, verify_response-Responds,
}

-- Base64 of a user's name and password, over TLS.
abbrev pub ByPassword : Codecs → ConnectionState → List ℕ → List ℕ → Type 0
ByPassword codecs s authz name =
    (rest : List ℕ) × (text : List ℕ) × (pair : List ℕ × List ℕ) × (s.is_tls ≡ true)
    × (strip_prefix_ignore_case authz (codes "Basic ") ≡ ok rest)
    × (codecs.decode_text (trim rest) ≡ some text)
    × (split_once 58 text ≡ some pair)
    × Knows (λ u. str_eq u.name pair.0 && str_eq u.password pair.1) s.users name

-- The right response to this connection's nonce, which has not run out, for this request's path.
abbrev pub ByDigest : Codecs → ConnectionState → List ℕ → List ℕ → List ℕ → ℕ → List ℕ → Type 0
ByDigest codecs s authz uri method now name =
    (params : HashMap (List ℕ)) × (parse_digest_params authz ≡ ok params)
    × (get (codes "nonce") params ≡ some s.current_nonce.value)
    × (now - s.current_nonce.created < nonce_ttl)
    × Responds codecs params method uri s.users s.realm
        (λ n. str_eq n s.current_nonce.value && not (is_stale s.current_nonce nonce_ttl now)) name

module _ (codecs : Codecs) (s : ConnectionState) where
  verify_basic-ByPassword :
      (authz name : List ℕ)
      → s.is_tls ≡ true
      → verify_basic codecs authz s.users ≡ ok name
      → ByPassword codecs s authz name
  unfolding verify_basic
  verify_basic-ByPassword authz name tls h =
      let (rest, h0, e0) = >>=-split (strip_prefix_ignore_case authz (codes "Basic ")) _ h in
      let (text, h1, e1) = >>=-split (ok_or (codecs.decode_text (trim rest)) malformed) _ h0 in
      let (pair, h2, e2) = >>=-split (ok_or (split_once 58 text) malformed) _ h1 in
      (
        rest,
        text,
        pair,
        tls,
        e0,
        ok_or-ok (codecs.decode_text (trim rest)) malformed e1,
        ok_or-ok (split_once 58 text) malformed e2,
        matched-Knows _ s.users name (ok_or-ok _ bad_credentials h2),
      )

  verify_digest-ByDigest :
      (authz uri method : List ℕ) (now : ℕ) (name : List ℕ)
      → verify_digest codecs authz method uri s.users s.realm
          (λ n. str_eq n s.current_nonce.value && not (is_stale s.current_nonce nonce_ttl now))
        ≡ ok name
      → ByDigest codecs s authz uri method now name
  unfolding verify_digest is_stale
  verify_digest-ByDigest authz uri method now name h =
      let fits = λ (n : List ℕ).
        str_eq n s.current_nonce.value && not (is_stale s.current_nonce nonce_ttl now) in
      let (params, h0, e) = >>=-split (parse_digest_params authz) _ h in
      let r = verify_response-Responds codecs params method uri s.users s.realm fits name h0 in
      let (same, fresh) = both (str_eq r.0 s.current_nonce.value) _ r.6 in
      (
        params,
        e,
        r.3 ∙ ap some (str_eq_eq r.0 s.current_nonce.value same),
        ground (arith, fresh),
        r,
      )
    where
      both : (a b : Bool) → (a && b) ≡ true → (a ≡ true) × (b ≡ true)
      both true b k = (refl, k)
      both false b k = absurd (cc)

  on_basic-ok :
      (r : Checked (List ℕ)) (name : List ℕ) → (on_basic r s).0 ≡ accepted name → r ≡ ok name
  unfolding on_basic
  on_basic-ok (ok user) name h = cc
  on_basic-ok (err missing) name h = cc
  on_basic-ok (err malformed) name h = cc
  on_basic-ok (err unknown_scheme) name h = cc
  on_basic-ok (err bad_credentials) name h = cc
  on_basic-ok (err stale_nonce) name h = cc
  on_basic-ok panicked name h = cc

  on_digest-ok :
      (r : Checked (List ℕ)) (fresh : Nonce) (name : List ℕ)
      → (on_digest r fresh s).0 ≡ accepted name
      → r ≡ ok name
  unfolding on_digest
  on_digest-ok (ok user) fresh name h = cc
  on_digest-ok (err missing) fresh name h = cc
  on_digest-ok (err malformed) fresh name h = cc
  on_digest-ok (err unknown_scheme) fresh name h = cc
  on_digest-ok (err bad_credentials) fresh name h = cc
  on_digest-ok (err stale_nonce) fresh name h = cc
  on_digest-ok panicked fresh name h = cc

  -- Whoever is accepted sent a header with, over TLS, the Base64 of the name and password of a
  -- user with that name, or digest parameters with the right response of a user with that name,
  -- to the nonce of this connection within 300 seconds and for the path of the request.
  pub authenticate-Granted :
      (authz : Option (List ℕ)) (uri method : List ℕ) (now : ℕ) (fresh : Nonce) (name : List ℕ)
      → (authenticate codecs s authz uri method now fresh).0 ≡ accepted name
      → (value : List ℕ) × (authz ≡ some value)
        × (ByPassword codecs s value name ⊎ ByDigest codecs s value uri method now name)
  unfolding authenticate
  authenticate-Granted none uri method now fresh name h = absurd (cc)
  authenticate-Granted (some value) uri method now fresh name h =
      elim (Bool-cases (s.is_tls && starts_with (to_ascii_lowercase value) (codes "basic "))) [
        | inl e ↦ (
          value,
          refl,
          inl (
              verify_basic-ByPassword value name (tls s.is_tls _ e)
                (on_basic-ok _ name (rw (e, authenticate) at h))),
        )
        | inr e ↦ (
          value,
          refl,
          inr (
              verify_digest-ByDigest value uri method now name
                (on_digest-ok _ fresh name (rw (e, authenticate) at h))),
        )
      ]
    where
      tls : (a b : Bool) → (a && b) ≡ true → a ≡ true
      tls true b k = refl
      tls false b k = k
