-- ===== src/Wire/Parsed.antt =====
-- The results of a streaming parser: nom's `Ok((rest, value))` and the three cases of `nom::Err`.
-- The context strings and error kinds inside the errors are diagnostics and are left out.
use bairelay.Base.{ℕ, ◌≡◌, List}

pub data Parsed (A : Type 0) : Type 0 where
  done : A → List ℕ → Parsed A
  incomplete : Parsed A
  error : Parsed A
  failure : Parsed A

abbrev pub Parser : Type 0 → Type 0
Parser A = List ℕ → Parsed A

-- `let (buf, a) = p(buf)?; f(a)(buf)`
infixl 5 ◌>>=◌ ◌>>◌
unfoldable pub ◌>>=◌ : {A B : Type 0} → Parser A → (A → Parser B) → Parser B
◌>>=◌ p f buf = elim (p buf) [
  | done a rest ↦ f a rest
  | incomplete ↦ incomplete
  | error ↦ error
  | failure ↦ failure
]

abbrev pub ◌>>◌ : {A B : Type 0} → Parser A → Parser B → Parser B
p >> q = p >>= λ _. q

-- `Ok((buf, a))`
abbrev pub ok : {A : Type 0} → A → Parser A
ok a buf = done a buf

-- A step that succeeds hands its value and the rest of the buffer on.
pub then_reads :
    {A B : Type 0} (p : Parser A) (f : A → Parser B) (buf : List ℕ) {a : A} {rest : List ℕ}
    {r : Parsed B}
    → p buf ≡ done a rest
    → f a rest ≡ r
    → (p >>= f) buf ≡ r
unfolding ◌>>=◌
then_reads p f buf h k = rw (h, ◌>>=◌) k

-- A step that wants more input ends the parse.
pub incomplete_stops :
    {A B : Type 0} (p : Parser A) (f : A → Parser B) (buf : List ℕ)
    → p buf ≡ incomplete
    → (p >>= f) buf ≡ incomplete
unfolding ◌>>=◌
incomplete_stops p f buf h = rw (h, ◌>>=◌)

pub error_stops :
    {A B : Type 0} (p : Parser A) (f : A → Parser B) (buf : List ℕ)
    → p buf ≡ error
    → (p >>= f) buf ≡ error
unfolding ◌>>=◌
error_stops p f buf h = rw (h, ◌>>=◌)

pub failure_stops :
    {A B : Type 0} (p : Parser A) (f : A → Parser B) (buf : List ℕ)
    → p buf ≡ failure
    → (p >>= f) buf ≡ failure
unfolding ◌>>=◌
failure_stops p f buf h = rw (h, ◌>>=◌)
