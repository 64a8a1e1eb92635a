-- ===== src/Replay/Moves.antt =====
-- About requests with one idempotency key that interleave: each step of a request, phase by phase.
use lead_generation_api_zyla.Prelude.{
  ℕ, ◌+◌, ◌*◌, ◌≤◌, ◌<◌, String, false, ◌≡◌, refl, subst, none, some, eqb, arith, eq_iff,
  Bool-cases, inl, inr, ◌==◌,
}
use lead_generation_api_zyla.Errors.{Result, ok, err}
use lead_generation_api_zyla.Idempotency.{second, live_entry, reserve, get, put, delete}
use lead_generation_api_zyla.Replay.{in_progress}
use lead_generation_api_zyla.Replay.Schedule.{
  Stage, arrived, missed, running, answered, failing, done, System, Event, wait, step, advance,
  happen,
}
use lead_generation_api_zyla.Replay.Phases.{
  IsQuiet, Owns, Agrees, free, held, complete, At, everywhere, elsewhere, there, apart,
  quiet-Agrees, expired,
}

module _ {B : Type 0} where
  module _ (ttl_seconds : ℕ) (key : String) (fingerprints : ℕ → String) (opened bound : ℕ) where
    -- a step of request `i`, which is at `p`
    abbrev after : ℕ → Result B → Stage B → System B → System B
    after i outcome p s = advance ttl_seconds key fingerprints i outcome p s

    free_step :
        (i : ℕ) (outcome : Result B) (p : Stage B) (s : System B)
        → live_entry opened (s.store key) ≡ none
        → opened ≤ s.now
        → ((j : ℕ) → IsQuiet (s.stage j))
        → s.executions ≡ 0
        → IsQuiet p
        → bound ≤ s.now + ttl_seconds * second
        → At ttl_seconds key fingerprints opened bound (after i outcome p s)
    unfolding get reserve
    free_step i outcome arrived s slot later quiet n q le =
        rw (expired opened s.now (s.store key) later slot) (
          free (ground (arith, eq_iff key key))
            (everywhere IsQuiet i missed s.stage (λ j e. quiet j) tt) n)
    free_step i outcome missed s slot later quiet n q le =
        rw (expired opened s.now (s.store key) later slot) (
          held i _ (ground (arith, eq_iff key key)) le (rw (there i running s.stage) n)
            (λ j e. rw e (quiet j)))
    free_step i outcome (done (err x)) s slot later quiet n q le = free slot quiet n
    free_step i outcome (done (ok b)) s slot later quiet n q le = absurd q
    free_step i outcome running s slot later quiet n q le = absurd q
    free_step i outcome (answered b) s slot later quiet n q le = absurd q
    free_step i outcome (failing e) s slot later quiet n q le = absurd q

    -- the holder's step
    owner_step :
        (i expires : ℕ) (outcome : Result B) (p : Stage B) (s : System B)
        → s.store key ≡ some (expires, none)
        → bound ≤ expires
        → Owns p s.executions
        → ((j : ℕ) → eqb i j ≡ false → IsQuiet (s.stage j))
        → bound ≤ s.now + ttl_seconds * second
        → At ttl_seconds key fingerprints opened bound (after i outcome p s)
    unfolding put delete
    owner_step i expires (ok b) running s slot live n quiet le =
        held i expires slot live (rw (there i (answered b) s.stage) (omega (arith, n)))
          (λ j e. rw e (quiet j e))
    owner_step i expires (err e) running s slot live n quiet le =
        held i expires slot live (rw (there i (failing e) s.stage) (omega (arith, n)))
          (λ j e. rw e (quiet j e))
    owner_step i expires outcome (answered b) s slot live n quiet le =
        complete (fingerprints i) b _ (ground (arith, eq_iff key key)) le
          (everywhere (Agrees b) i (done (ok b)) s.stage
            (λ j e. quiet-Agrees b (s.stage j) (quiet j e)) refl)
          n
    owner_step i expires outcome (failing e) s slot live n quiet le =
        free (ground (arith, eq_iff key key)) (everywhere IsQuiet i (done (err e)) s.stage quiet tt)
          n
    owner_step i expires outcome arrived s slot live n quiet le = absurd n
    owner_step i expires outcome missed s slot live n quiet le = absurd n
    owner_step i expires outcome (done r) s slot live n quiet le = absurd n

    -- another request's step while the key is held
    other_step :
        (i k expires : ℕ) (outcome : Result B) (p : Stage B) (s : System B)
        → eqb k i ≡ false
        → s.store key ≡ some (expires, none)
        → bound ≤ expires
        → s.now < bound
        → Owns (s.stage k) s.executions
        → ((j : ℕ) → eqb k j ≡ false → IsQuiet (s.stage j))
        → IsQuiet p
        → At ttl_seconds key fingerprints opened bound (after i outcome p s)
    unfolding get reserve
    other_step i k expires outcome arrived s ne slot live early own quiet q =
        let fresh : live_entry s.now (s.store key) ≡ some none = rw slot (ground arith) in
        rw fresh (
          held k expires slot live (rw (apart i k _ s.stage ne) own)
            (elsewhere IsQuiet i k (done (err in_progress)) s.stage quiet tt))
    other_step i k expires outcome missed s ne slot live early own quiet q =
        let fresh : live_entry s.now (s.store key) ≡ some none = rw slot (ground arith) in
        rw fresh (
          held k expires slot live (rw (apart i k _ s.stage ne) own)
            (elsewhere IsQuiet i k (done (err in_progress)) s.stage quiet tt))
    other_step i k expires outcome (done (err x)) s ne slot live early own quiet q =
        held k expires slot live own quiet
    other_step i k expires outcome (done (ok b)) s ne slot live early own quiet q = absurd q
    other_step i k expires outcome running s ne slot live early own quiet q = absurd q
    other_step i k expires outcome (answered b) s ne slot live early own quiet q = absurd q
    other_step i k expires outcome (failing e) s ne slot live early own quiet q = absurd q

    -- a request's step once the response is stored
    complete_step :
        (i expires : ℕ) (outcome : Result B) (fingerprint : String) (b : B) (p : Stage B)
        (s : System B)
        → s.store key
          ≡ some (expires, some (record { fingerprint = fingerprint; response_body = b }))
        → bound ≤ expires
        → s.now < bound
        → ((j : ℕ) → Agrees b (s.stage j))
        → s.executions ≡ 1
        → Agrees b p
        → At ttl_seconds key fingerprints opened bound (after i outcome p s)
    unfolding get reserve
    complete_step i expires outcome fp b arrived s slot live early all n q =
        let fresh : live_entry s.now (s.store key)
            ≡ some (some (record { fingerprint = fp; response_body = b })) =
          rw slot (ground arith) in
        elim (Bool-cases (fp == fingerprints i)) [
          | inl e ↦
              rw (fresh, e)
                (complete fp b expires slot live
                  (everywhere (Agrees b) i (done (ok b)) s.stage (λ j e. all j) refl) n)
          | inr e ↦
              rw (fresh, e)
                (complete fp b expires slot live
                  (everywhere (Agrees b) i _ s.stage (λ j e. all j) tt) n)
        ]
    complete_step i expires outcome fp b missed s slot live early all n q =
        let fresh : live_entry s.now (s.store key)
            ≡ some (some (record { fingerprint = fp; response_body = b })) =
          rw slot (ground arith) in
        elim (Bool-cases (fp == fingerprints i)) [
          | inl e ↦
              rw (fresh, e)
                (complete fp b expires slot live
                  (everywhere (Agrees b) i _ s.stage (λ j e. all j) tt) n)
          | inr e ↦
              rw (fresh, e)
                (complete fp b expires slot live
                  (everywhere (Agrees b) i _ s.stage (λ j e. all j) tt) n)
        ]
    complete_step i expires outcome fp b (done r) s slot live early all n q =
        complete fp b expires slot live all n
    complete_step i expires outcome fp b running s slot live early all n q = absurd q
    complete_step i expires outcome fp b (answered c) s slot live early all n q = absurd q
    complete_step i expires outcome fp b (failing e) s slot live early all n q = absurd q

    -- every event, before the bound
    pub At-happen :
        (event : Event B) (s : System B)
        → opened ≤ s.now
        → s.now < bound
        → bound ≤ s.now + ttl_seconds * second
        → At ttl_seconds key fingerprints opened bound s
        → At ttl_seconds key fingerprints opened bound (happen ttl_seconds key fingerprints event s)
    At-happen (wait time) s later early le phase = phase
    At-happen (step i outcome) s later early le (free slot quiet n) =
        free_step i outcome (s.stage i) s slot later quiet n (quiet i) le
    At-happen (step i outcome) s later early le (complete fp b expires slot live all n) =
        complete_step i expires outcome fp b (s.stage i) s slot live early all n (all i)
    At-happen (step i outcome) s later early le (held k expires slot live own quiet) =
        elim (Bool-cases (eqb k i)) [
          | inl e ↦
              let same : k ≡ i = ground arith in
              owner_step i expires outcome (s.stage i) s slot live
                (subst (λ j. Owns (s.stage j) s.executions) same own)
                (subst (λ m. (j : ℕ) → eqb m j ≡ false → IsQuiet (s.stage j)) same quiet) le
          | inr e ↦
              other_step i k expires outcome (s.stage i) s e slot live early own quiet (quiet i e)
        ]

    -- the clock never goes back
    now-advance :
        (i : ℕ) (outcome : Result B) (p : Stage B) (s : System B)
        → (after i outcome p s).now ≡ s.now
    now-advance i outcome arrived s = refl
    now-advance i outcome missed s = refl
    now-advance i outcome running s = refl
    now-advance i outcome (answered b) s = refl
    now-advance i outcome (failing e) s = refl
    now-advance i outcome (done r) s = refl

    pub now-happen :
        (event : Event B) (s : System B) → s.now ≤ (happen ttl_seconds key fingerprints event s).now
    now-happen (wait time) s = omega arith
    now-happen (step i outcome) s = omega (arith, now-advance i outcome (s.stage i) s)
