-- ===== src/RtspAuth.antt =====
-- RTSP authentication: `verify_basic` and `verify_digest` of src/rtsp/protocol/auth.rs with the challenges, and
-- `authenticate` of src/rtsp/server/connection.rs. MD5 and Base64 are parameters, an instant is a number of
-- nanoseconds, and the random value of a nonce is an argument.
pub mod Text
pub mod Header
pub mod Responds
pub mod Granted
pub mod Unaligned
mod Examples
use bairelay.Base.{
  ℕ, ◌-◌, Bool, true, false, not, ◌&&◌, List, [], ◌∷◌, ◌++◌, Option, none, some, leb, ◌==◌,
  if◌then◌else◌,
}
use bairelay.Base.HashMap.{HashMap, str_eq, starts_with, get}
use bairelay.RtspAuth.Text.{codes, to_ascii_lowercase, trim, split_once}
use bairelay.RtspAuth.Header.{
  Checked, ok, err, panicked, ok_or, ◌>>=◌, malformed, bad_credentials, stale_nonce,
  strip_prefix_ignore_case, parse_digest_params, uri_path, or_default,
}

pub record UserCred : Type 0 where
  pub name : List ℕ
  pub password : List ℕ

pub record Nonce : Type 0 where
  pub value : List ℕ
  pub created : ℕ

unfoldable pub is_stale : Nonce → ℕ → ℕ → Bool
is_stale nonce ttl now = leb ttl (now - nonce.created)

-- `build_basic_challenge` and `build_digest_challenge`
unfoldable pub build_basic_challenge : List ℕ → List ℕ
build_basic_challenge realm = codes "Basic realm=\"" ++ (realm ++ codes "\"")

unfoldable pub build_digest_challenge : List ℕ → Nonce → Bool → List ℕ
build_digest_challenge realm nonce stale =
    codes "Digest realm=\""
    ++ (realm
        ++ (codes "\", qop=\"auth\", nonce=\""
            ++ (nonce.value
                ++ (codes "\", algorithm=MD5" ++ (if stale then codes ",stale=true" else [])))))

-- The first user that passes; every user is tested.
unfoldable pub matched : (UserCred → Bool) → List UserCred → Option (List ℕ)
matched p [] = none
matched p (u ∷ users) = let later = matched p users in if p u then some u.name else later

-- `format!("{digest:x}")` of `md5::compute`, and Base64 with the check for UTF-8 behind it.
pub record Codecs : Type 0 where
  pub md5_hex : List ℕ → List ℕ
  pub decode_text : List ℕ → Option (List ℕ)

module _ (codecs : Codecs) where
  open codecs use {md5_hex, decode_text}

  unfoldable pub verify_basic : List ℕ → List UserCred → Checked (List ℕ)
  unfolding strip_prefix_ignore_case trim split_once str_eq matched
  verify_basic authz users = do
    rest ← strip_prefix_ignore_case authz (codes "Basic ")
    s ← ok_or (decode_text (trim rest)) malformed
    pair ← ok_or (split_once 58 s) malformed
    ok_or (matched (λ u. str_eq u.name pair.0 && str_eq u.password pair.1) users) bad_credentials

  unfoldable pub digest_response :
      List ℕ → List ℕ → List ℕ → List ℕ → List ℕ → List ℕ → List ℕ → List ℕ → List ℕ → List ℕ
  digest_response username realm password method uri nonce nc cnonce qop =
      let ha1 = md5_hex (username ++ 58 ∷ (realm ++ 58 ∷ password)) in
      let ha2 = md5_hex (method ++ 58 ∷ uri) in
      md5_hex (ha1 ++ 58 ∷ (nonce ++ 58 ∷ (nc ++ 58 ∷ (cnonce ++ 58 ∷ (qop ++ 58 ∷ ha2)))))

  -- From the look at the nonce on.
  unfoldable pub check_response :
      HashMap (List ℕ)
      → List ℕ
      → List ℕ
      → List UserCred
      → List ℕ
      → (List ℕ → Bool)
      → List ℕ
      → List ℕ
      → List ℕ
      → List ℕ
      → Checked (List ℕ)
  unfolding get digest_response uri_path str_eq matched to_ascii_lowercase
  check_response params method request_uri users realm nonce_ok username nonce uri response =
      let nc = or_default (get (codes "nc") params) in
      let cnonce = or_default (get (codes "cnonce") params) in
      let qop = or_default (get (codes "qop") params) in
      let passes = λ (u : UserCred).
        str_eq u.name username
        && str_eq (digest_response u.name realm u.password method uri nonce nc cnonce qop)
            (to_ascii_lowercase response) in
      if not (nonce_ok nonce)
      then err stale_nonce
      else if not (str_eq (uri_path uri) (uri_path request_uri))
      then err bad_credentials
      else ok_or (matched passes users) bad_credentials

  unfoldable pub verify_response :
      HashMap (List ℕ)
      → List ℕ
      → List ℕ
      → List UserCred
      → List ℕ
      → (List ℕ → Bool)
      → Checked (List ℕ)
  unfolding get check_response
  verify_response params method request_uri users realm nonce_ok = do
    username ← ok_or (get (codes "username") params) malformed
    nonce ← ok_or (get (codes "nonce") params) malformed
    uri ← ok_or (get (codes "uri") params) malformed
    response ← ok_or (get (codes "response") params) malformed
    check_response params method request_uri users realm nonce_ok username nonce uri response

  unfoldable pub verify_digest :
      List ℕ → List ℕ → List ℕ → List UserCred → List ℕ → (List ℕ → Bool) → Checked (List ℕ)
  unfolding parse_digest_params verify_response
  verify_digest authz method request_uri users realm nonce_ok = do
    params ← parse_digest_params authz
    verify_response params method request_uri users realm nonce_ok

-- The values of the `WWW-Authenticate` headers of a 401 are those of `challenge`.
pub data AuthOutcome : Type 0 where
  accepted : List ℕ → AuthOutcome
  challenge : List (List ℕ) → AuthOutcome
  forbidden : AuthOutcome
  connection_lost : AuthOutcome

-- What a connection needs for it. The nonce may be replaced.
pub record ConnectionState : Type 0 where
  pub users : List UserCred
  pub realm : List ℕ
  pub is_tls : Bool
  pub current_nonce : Nonce

-- 300 seconds.
abbrev pub nonce_ttl : ℕ
nonce_ttl = 300000000000

unfoldable pub on_basic : Checked (List ℕ) → ConnectionState → AuthOutcome × ConnectionState
unfolding build_basic_challenge
on_basic (ok user) s = (accepted user, s)
on_basic (err bad_credentials) s = (forbidden, s)
on_basic (err other) s = (challenge (build_basic_challenge s.realm ∷ []), s)
on_basic panicked s = (connection_lost, s)

unfoldable pub on_digest :
    Checked (List ℕ) → Nonce → ConnectionState → AuthOutcome × ConnectionState
unfolding build_digest_challenge
on_digest (ok user) fresh s = (accepted user, s)
on_digest (err stale_nonce) fresh s =
    (challenge (build_digest_challenge s.realm fresh true ∷ []), record s { current_nonce = fresh })
on_digest (err bad_credentials) fresh s = (forbidden, s)
on_digest (err other) fresh s =
    (challenge (build_digest_challenge s.realm s.current_nonce false ∷ []), s)
on_digest panicked fresh s = (connection_lost, s)

-- A request with its header, if any; `fresh` is the nonce that is drawn if one is.
unfoldable pub authenticate :
    Codecs
    → ConnectionState
    → Option (List ℕ)
    → List ℕ
    → List ℕ
    → ℕ
    → Nonce
    → AuthOutcome × ConnectionState
unfolding is_stale build_basic_challenge build_digest_challenge starts_with to_ascii_lowercase
    verify_basic verify_digest on_basic on_digest
authenticate codecs s none uri method now fresh =
    let basic = if s.is_tls then build_basic_challenge s.realm ∷ [] else [] in
    (challenge (build_digest_challenge s.realm s.current_nonce false ∷ basic), s)
authenticate codecs s (some authz) uri method now fresh =
    if s.is_tls && starts_with (to_ascii_lowercase authz) (codes "basic ")
    then on_basic (verify_basic codecs authz s.users) s
    else on_digest
        (verify_digest codecs authz method uri s.users s.realm
          (λ n. str_eq n s.current_nonce.value && not (is_stale s.current_nonce nonce_ttl now)))
        fresh s
