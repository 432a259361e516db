-- ===== src/RtspAuth/Responds.antt =====
-- The right response to digest parameters: `verify_digest` behind its parsing.
use bairelay.Base.{
  ℕ, ◌≡◌, ◌⊎◌, inl, inr, refl, Bool, true, ◌&&◌, List, [], ◌∷◌, Option, none, some, some_eq,
  Bool-cases, arith,
}
use bairelay.Base.HashMap.{HashMap, str_eq, str_eq_eq, get}
use bairelay.RtspAuth.Text.{codes, to_ascii_lowercase}
use bairelay.RtspAuth.Header.{
  Checked, ok, err, panicked, ok_or, ◌>>=◌, AuthError, malformed, bad_credentials, stale_nonce,
  uri_path, or_default,
}
use bairelay.RtspAuth.{UserCred, matched, Codecs, digest_response, check_response, verify_response}

-- A user of the list with this name, who passes.
abbrev pub Knows : (UserCred → Bool) → List UserCred → List ℕ → Type 0
Knows p [] name = ⊥
Knows p (u ∷ users) name = ((u.name ≡ name) × (p u ≡ true)) ⊎ Knows p users name

pub matched-Knows :
    (p : UserCred → Bool) (users : List UserCred) (name : List ℕ)
    → matched p users ≡ some name
    → Knows p users name
unfolding matched
matched-Knows p [] name e = cc
matched-Knows p (u ∷ users) name e = elim (Bool-cases (p u)) [
  | inl t ↦ inl (some_eq (rw (t, matched) at e), t)
  | inr f ↦ inr (matched-Knows p users name (rw (f, matched) at e))
]

-- Where a chain of checks succeeds, its first one does.
pub >>=-split :
    {A B : Type 0} (check : Checked A) (next : A → Checked B) {result : B}
    → check >>= next ≡ ok result
    → (passed : A) × (next passed ≡ ok result) × (check ≡ ok passed)
>>=-split panicked next e = cc
>>=-split (err reason) next e = cc
>>=-split (ok passed) next e = (passed, e, refl)

pub ok_or-ok : {A : Type 0} (o : Option A) (e : AuthError) {a : A} → ok_or o e ≡ ok a → o ≡ some a
ok_or-ok none e h = cc
ok_or-ok (some a) e h = cc

module _ (codecs : Codecs) where
  -- The right response of a user to the parameters that the client has sent.
  abbrev pub Responds :
      HashMap (List ℕ)
      → List ℕ
      → List ℕ
      → List UserCred
      → List ℕ
      → (List ℕ → Bool)
      → List ℕ
      → Type 0
  Responds params method request_uri users realm nonce_ok name =
      (nonce : List ℕ) × (uri : List ℕ) × (response : List ℕ) × (get (codes "nonce") params
        ≡ some nonce)
      × (get (codes "uri") params ≡ some uri)
      × (get (codes "response") params ≡ some response)
      × (nonce_ok nonce ≡ true)
      × (uri_path uri ≡ uri_path request_uri)
      × Knows
          (λ u.
            str_eq
              (digest_response codecs u.name realm u.password method uri nonce
                (or_default (get (codes "nc") params)) (or_default (get (codes "cnonce") params))
                (or_default (get (codes "qop") params)))
              (to_ascii_lowercase response))
          users name

  Knows-and :
      (p q : UserCred → Bool) (users : List UserCred) (name : List ℕ)
      → Knows (λ u. p u && q u) users name
      → Knows q users name
  Knows-and p q [] name h = h
  Knows-and p q (u ∷ users) name (inl (e, h)) = inl (e, ground (arith, h))
  Knows-and p q (u ∷ users) name (inr h) = inr (Knows-and p q users name h)

  check_response-Responds :
      (params : HashMap (List ℕ)) (method request_uri : List ℕ) (users : List UserCred)
      (realm : List ℕ) (nonce_ok : List ℕ → Bool) (username nonce uri response name : List ℕ)
      → get (codes "nonce") params ≡ some nonce
      → get (codes "uri") params ≡ some uri
      → get (codes "response") params ≡ some response
      → check_response codecs params method request_uri users realm nonce_ok username nonce uri
          response
        ≡ ok name
      → Responds params method request_uri users realm nonce_ok name
  unfolding check_response
  check_response-Responds params method request_uri users realm nonce_ok username nonce uri response
        name gn gu gr h =
      elim (Bool-cases (nonce_ok nonce)) [
        | inr f ↦ absurd (not_ok stale_nonce name (rw (f, check_response) at h))
        | inl n ↦ elim (Bool-cases (str_eq (uri_path uri) (uri_path request_uri))) [
          | inr f ↦ absurd (not_ok bad_credentials name (rw (n, check_response, f) at h))
          | inl u ↦ (
            nonce,
            uri,
            response,
            gn,
            gu,
            gr,
            n,
            str_eq_eq (uri_path uri) (uri_path request_uri) u,
            Knows-and (λ v. str_eq v.name username) _ users name
                (matched-Knows _ users name
                  (ok_or-ok _ bad_credentials (rw (n, check_response, u) at h))),
          )
        ]
      ]
    where
      not_ok : (e : AuthError) (name : List ℕ) → ◌≡◌ {A = Checked (List ℕ)} (err e) (ok name) → ⊥
      not_ok e name k = cc

  pub verify_response-Responds :
      (params : HashMap (List ℕ)) (method request_uri : List ℕ) (users : List UserCred)
      (realm : List ℕ) (nonce_ok : List ℕ → Bool) (name : List ℕ)
      → verify_response codecs params method request_uri users realm nonce_ok ≡ ok name
      → Responds params method request_uri users realm nonce_ok name
  unfolding verify_response
  verify_response-Responds params method request_uri users realm nonce_ok name h =
      let (username, h0, e0) = >>=-split (ok_or (get (codes "username") params) malformed) _ h in
      let (nonce, h1, e1) = >>=-split (ok_or (get (codes "nonce") params) malformed) _ h0 in
      let (uri, h2, e2) = >>=-split (ok_or (get (codes "uri") params) malformed) _ h1 in
      let (response, h3, e3) = >>=-split (ok_or (get (codes "response") params) malformed) _ h2 in
      check_response-Responds params method request_uri users realm nonce_ok username nonce uri
        response name (ok_or-ok _ malformed e1) (ok_or-ok _ malformed e2) (ok_or-ok _ malformed e3)
        h3
