-- ===== src/Http.antt =====
-- What a handler of an HTTP service answers (FastAPI's responses and exceptions).
use aegis_project.Prelude.{ℕ}

-- A value, an `HTTPException`, or an exception that the framework answers with 500.
pub data Response {ℓ} (A : Type ℓ) : Type ℓ where
  ok : A → Response A
  http : ℕ → Response A
  server_error : Response A

infixl 5 ◌>>=◌
abbrev pub ◌>>=◌ {ℓ κ} : {A : Type ℓ} {B : Type κ} → Response A → (A → Response B) → Response B
ok a >>= f = f a
http n >>= f = http n
server_error >>= f = server_error
