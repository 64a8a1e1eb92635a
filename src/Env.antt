-- ===== src/Env.antt =====
-- What the program takes from outside: the clock, the uuids drawn, the digests and parsers of
-- libraries. They are parameters of the model; a theorem names what it assumes of them.
use lead_generation_api_zyla.Prelude.{ℕ, String, Option, if◌then◌else◌}
use lead_generation_api_zyla.Json.{Json, null, bool, str}

pub record Env : Type 0 where
  -- `datetime.now(timezone.utc)`
  pub now : ℕ
  -- `round((time.perf_counter() - started) * 1000)`
  pub latency_ms : ℕ
  -- the n-th `str(uuid4())`
  pub uuid : ℕ → String
  -- `hmac.new(key, message, sha256).hexdigest()`
  pub hmac_sha256 : String → String → String
  -- `datetime.fromisoformat`, with nothing for a `ValueError`
  pub from_iso : String → Option ℕ
  -- `settings.api_key_pepper`
  pub api_key_pepper : String
  -- `str(v)` of a number, a list or a dict
  pub repr : Json → String

-- `str(v)`
abbrev pub text_of : Env → Json → String
text_of env null = "None"
text_of env (bool b) = if b then "True" else "False"
text_of env (str s) = s
text_of env v = env.repr v
