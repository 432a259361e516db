-- ===== src/RtspAuth/Header.antt =====
-- The header of a request: the prefixes, the parameters and the path of src/rtsp/protocol/auth.rs, with its errors.
use bairelay.Base.{
  ℕ, Bool, true, false, not, ◌&&◌, List, [], ◌∷◌, ◌++◌, Option, none, some, leb, ◌==◌,
  if◌then◌else◌,
}
use bairelay.Base.HashMap.{HashMap, starts_with, insert}
use bairelay.RtspAuth.Text.{
  codes, byte_len, split_at, to_ascii_lowercase, eq_ignore_ascii_case, trim, trim_matches,
  split_once,
}

pub data AuthError : Type 0 where
  missing malformed unknown_scheme bad_credentials stale_nonce : AuthError

-- The outcome of a check: the user's name, an error, or a panic of the slicing.
pub data Checked (A : Type 0) : Type 0 where
  ok : A → Checked A
  err : AuthError → Checked A
  panicked : Checked A

infixl 5 ◌>>=◌
abbrev pub ◌>>=◌ : {A B : Type 0} → Checked A → (A → Checked B) → Checked B
panicked >>= next = panicked
err e >>= next = err e
ok a >>= next = next a

-- `ok_or`
abbrev pub ok_or : {A : Type 0} → Option A → AuthError → Checked A
ok_or none e = err e
ok_or (some a) e = ok a

-- The slice is taken where the text is long enough; its end may lie inside a character.
unfoldable pub strip_prefix_ignore_case : List ℕ → List ℕ → Checked (List ℕ)
unfolding byte_len split_at eq_ignore_ascii_case
strip_prefix_ignore_case s prefix =
    if leb (byte_len prefix) (byte_len s)
    then elim (split_at (byte_len prefix) s) [
      | none ↦ panicked
      | some (front, back) ↦
          if eq_ignore_ascii_case front prefix then ok back else err unknown_scheme
    ]
    else err unknown_scheme

-- The loop, on the parameter that is being read.
unfoldable pub split_loop : Bool → List ℕ → List ℕ → List (List ℕ)
unfolding trim
split_loop in_quotes cur [] = elim (trim cur) [ [] ↦ [] | c ∷ s ↦ cur ∷ [] ]
split_loop in_quotes cur (ch ∷ s) =
    let quoted = split_loop (not in_quotes) (cur ++ (ch ∷ [])) s in
    let cut = cur ∷ split_loop in_quotes [] s in
    let more = split_loop in_quotes (cur ++ (ch ∷ [])) s in
    if ch == 34 then quoted else if ch == 44 && not in_quotes then cut else more

unfoldable pub split_digest_params : List ℕ → List (List ℕ)
unfolding split_loop
split_digest_params s = split_loop false [] s

unfoldable pub insert_params : List (List ℕ) → HashMap (List ℕ) → Checked (HashMap (List ℕ))
unfolding split_once trim trim_matches to_ascii_lowercase insert
insert_params [] map = ok map
insert_params (part ∷ parts) map = elim (split_once 61 part) [
  | none ↦ err malformed
  | some (k, v) ↦
      insert_params parts
        (insert (to_ascii_lowercase (trim k)) (trim_matches (λ c. c == 34) (trim v)) map)
]

unfoldable pub parse_digest_params : List ℕ → Checked (HashMap (List ℕ))
unfolding strip_prefix_ignore_case split_digest_params insert_params
parse_digest_params value = do
  rest ← strip_prefix_ignore_case value (codes "Digest ")
  insert_params (split_digest_params rest) []

-- `uri.find("://")`, then the path behind it.
unfoldable pub after_scheme : List ℕ → Option (List ℕ)
unfolding starts_with
after_scheme [] = none
after_scheme (c ∷ s) = elim (starts_with (c ∷ s) (codes "://")) [
  | true ↦ elim s [ _ ∷ (_ ∷ after) ↦ some after | _ ↦ none ]
  | false ↦ after_scheme s
]

unfoldable pub from_slash : List ℕ → List ℕ
from_slash [] = codes "/"
from_slash (c ∷ s) = if c == 47 then c ∷ s else from_slash s

unfoldable pub uri_path : List ℕ → List ℕ
unfolding after_scheme from_slash
uri_path uri = elim (after_scheme uri) [ none ↦ uri | some after ↦ from_slash after ]

-- `unwrap_or_default`
abbrev pub or_default : Option (List ℕ) → List ℕ
or_default none = []
or_default (some s) = s
