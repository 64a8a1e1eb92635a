-- ===== src/Replay/Phases.antt =====
-- About requests with one idempotency key that interleave: what the slot of the key holds, and who
-- holds it, at every moment before the first reservation may expire.
use lead_generation_api_zyla.Prelude.{
  ℕ, ◌≤◌, String, false, ◌≡◌, refl, Option, none, some, eqb, arith, Bool-cases, inl, inr,
}
use lead_generation_api_zyla.Errors.{ok, err}
use lead_generation_api_zyla.Idempotency.{IdempotencyHit, live_entry}
use lead_generation_api_zyla.Replay.Schedule.{
  Stage, arrived, missed, running, answered, failing, done, System, move_to,
}

module _ {B : Type 0} where
  -- a request that holds nothing and has not been answered
  abbrev pub IsQuiet : Stage B → Type 0
  IsQuiet arrived = Unit
  IsQuiet missed = Unit
  IsQuiet (done (err e)) = Unit
  IsQuiet _ = ⊥

  -- the request that holds the key, and the searches committed by then
  abbrev pub Owns : Stage B → ℕ → Type 0
  Owns running n = n ≡ 0
  Owns (answered b) n = n ≡ 1
  Owns (failing e) n = n ≡ 0
  Owns _ n = ⊥

  -- a request that holds nothing, and has the response `b` if any
  abbrev pub Agrees : B → Stage B → Type 0
  Agrees b arrived = Unit
  Agrees b missed = Unit
  Agrees b (done (err e)) = Unit
  Agrees b (done (ok c)) = c ≡ b
  Agrees b _ = ⊥

  -- what the slot holds, until `bound`
  pub data Phase (opened bound : ℕ) (slot : Option (ℕ × Option (IdempotencyHit B)))
      (stage : ℕ → Stage B) (n : ℕ) : Type 0 where
    free :
        live_entry opened slot ≡ none
        → ((j : ℕ) → IsQuiet (stage j))
        → n ≡ 0
        → Phase opened bound slot stage n
    held :
        (i expires : ℕ)
        → slot ≡ some (expires, none)
        → bound ≤ expires
        → Owns (stage i) n
        → ((j : ℕ) → eqb i j ≡ false → IsQuiet (stage j))
        → Phase opened bound slot stage n
    complete :
        (fingerprint : String) (b : B) (expires : ℕ)
        → slot ≡ some (expires, some (record { fingerprint = fingerprint; response_body = b }))
        → bound ≤ expires
        → ((j : ℕ) → Agrees b (stage j))
        → n ≡ 1
        → Phase opened bound slot stage n

  -- a property of all stages, after one of them has moved
  pub everywhere :
      (P : Stage B → Type 0) (i : ℕ) (a : Stage B) (stage : ℕ → Stage B)
      → ((j : ℕ) → eqb i j ≡ false → P (stage j))
      → P a
      → (j : ℕ) → P (move_to i a stage j)
  everywhere P i a stage h k j = elim (Bool-cases (eqb i j)) [
    | inl e ↦ rw e k
    | inr e ↦ rw e (h j e)
  ]

  pub elsewhere :
      (P : Stage B → Type 0) (i k : ℕ) (a : Stage B) (stage : ℕ → Stage B)
      → ((j : ℕ) → eqb k j ≡ false → P (stage j))
      → P a
      → (j : ℕ) → eqb k j ≡ false
      → P (move_to i a stage j)
  elsewhere P i k a stage h q j e = elim (Bool-cases (eqb i j)) [
    | inl same ↦ rw same q
    | inr other ↦ rw other (h j e)
  ]

  pub there : (i : ℕ) (a : Stage B) (stage : ℕ → Stage B) → move_to i a stage i ≡ a
  there i a stage = ground arith

  pub apart :
      (i k : ℕ) (a : Stage B) (stage : ℕ → Stage B)
      → eqb k i ≡ false
      → move_to i a stage k ≡ stage k
  apart i k a stage e = ground arith

  pub quiet-Agrees : (b : B) (a : Stage B) → IsQuiet a → Agrees b a
  quiet-Agrees b arrived q = tt
  quiet-Agrees b missed q = tt
  quiet-Agrees b (done (err e)) q = tt
  quiet-Agrees b (done (ok c)) q = absurd q
  quiet-Agrees b running q = absurd q
  quiet-Agrees b (answered c) q = absurd q
  quiet-Agrees b (failing c) q = absurd q

  -- what is not live stays so
  pub expired :
      (now later : ℕ) (slot : Option (ℕ × Option (IdempotencyHit B)))
      → now ≤ later
      → live_entry now slot ≡ none
      → live_entry later slot ≡ none
  expired now later none le h = refl
  expired now later (some (expires, e)) le h = ground arith

  module _ (ttl_seconds : ℕ) (key : String) (fingerprints : ℕ → String) (opened bound : ℕ) where
    abbrev pub At : System B → Type 0
    At s = Phase opened bound (s.store key) s.stage s.executions
