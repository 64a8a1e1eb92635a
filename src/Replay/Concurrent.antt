-- ===== src/Replay/Concurrent.antt =====
-- About requests with one idempotency key that interleave: how many searches they commit, and what
-- they are answered.
use lead_generation_api_zyla.Prelude.{
  ℕ, ◌+◌, ◌*◌, ◌≤◌, ◌<◌, String, ◌≡◌, refl, sym, ◌∙◌, subst, Option, none, List, [], ◌∷◌, eqb,
  arith, Bool-cases, inl, inr,
}
use lead_generation_api_zyla.Errors.{ok}
use lead_generation_api_zyla.Idempotency.{Store, IdempotencyHit, second, live_entry}
use lead_generation_api_zyla.Replay.Schedule.{
  Stage, arrived, missed, running, answered, failing, done, System, Event, run, opening,
}
use lead_generation_api_zyla.Replay.Phases.{IsQuiet, Owns, Agrees, Phase, free, held, complete, At}
use lead_generation_api_zyla.Replay.Moves.{At-happen, now-happen}

module _ {B : Type 0} where
  owned-le : (p : Stage B) (n : ℕ) → Owns p n → n ≤ 1
  owned-le running n h = omega arith
  owned-le (answered b) n h = omega arith
  owned-le (failing e) n h = omega arith
  owned-le arrived n h = absurd h
  owned-le missed n h = absurd h
  owned-le (done r) n h = absurd h

  one_in :
      {opened bound : ℕ} {slot : Option (ℕ × Option (IdempotencyHit B))} {stage : ℕ → Stage B}
      {n : ℕ}
      → Phase opened bound slot stage n
      → n ≤ 1
  one_in (free slot quiet e) = omega arith
  one_in (complete fp b expires slot live all e) = omega arith
  one_in {stage} {n} (held i expires slot live own quiet) = owned-le (stage i) n own

  -- an answered request is quiet in no phase, and owns nothing
  unquiet : (p : Stage B) (b : B) → p ≡ done (ok b) → IsQuiet p → ⊥
  unquiet p b e q = subst IsQuiet e q

  unowned : (p : Stage B) (n : ℕ) (b : B) → p ≡ done (ok b) → Owns p n → ⊥
  unowned p n b e q = subst (λ a. Owns a n) e q

  same_in :
      {opened bound : ℕ} {slot : Option (ℕ × Option (IdempotencyHit B))} {stage : ℕ → Stage B}
      {n : ℕ} (i j : ℕ) (b c : B)
      → Phase opened bound slot stage n
      → stage i ≡ done (ok b)
      → stage j ≡ done (ok c)
      → (b ≡ c) × (n ≡ 1)
  same_in {stage} i j b c (free slot quiet e) hb hc = absurd (unquiet (stage i) b hb (quiet i))
  same_in {stage} i j b c (complete fp d expires slot live all e) hb hc =
      (subst (Agrees d) hb (all i) ∙ sym (subst (Agrees d) hc (all j)), e)
  same_in {stage} {n} i j b c (held k expires slot live own quiet) hb hc =
      elim (Bool-cases (eqb k i)) [
        | inl e ↦
            let same : k ≡ i = ground arith in
            absurd (unowned (stage k) n b (subst (λ m. stage m ≡ done (ok b)) (sym same) hb) own)
        | inr e ↦ absurd (unquiet (stage i) b hb (quiet i e))
      ]

  module _ (ttl_seconds : ℕ) (key : String) (fingerprints : ℕ → String) (opened : ℕ)
      (store : Store B) (vacant : live_entry opened (store key) ≡ none) where
    abbrev reached : List (Event B) → System B
    reached events = run ttl_seconds key fingerprints events (opening opened store)

    now-run : (events : List (Event B)) → opened ≤ (reached events).now
    unfolding run
    now-run [] = omega arith
    now-run (event ∷ earlier) = omega (
      arith,
      now-run earlier,
      now-happen ttl_seconds key fingerprints opened 0 event (reached earlier),
    )

    Phase-run :
        (events : List (Event B))
        → (reached events).now < opened + ttl_seconds * second
        → At ttl_seconds key fingerprints opened (opened + ttl_seconds * second) (reached events)
    unfolding run
    Phase-run [] early = free vacant (λ j. tt) refl
    Phase-run (event ∷ earlier) early =
        let before : (reached earlier).now < opened + ttl_seconds * second =
          omega (arith, now-happen ttl_seconds key fingerprints opened 0 event (reached earlier)) in
        At-happen ttl_seconds key fingerprints opened (opened + ttl_seconds * second) event
          (reached earlier) (now-run earlier) before (omega (arith, now-run earlier))
          (Phase-run earlier before)

    -- However requests with one idempotency key interleave, with whatever payloads: until the time to live
    -- that follows the first of them is over, at most one search has been committed.
    pub one_execution :
        (events : List (Event B))
        → (reached events).now < opened + ttl_seconds * second
        → (reached events).executions ≤ 1
    one_execution events early = one_in (Phase-run events early)

    -- However requests with one idempotency key interleave, until the time to live that follows the first
    -- of them is over: two that have been answered with a response were given the same one, by one
    -- committed search.
    pub same_answer :
        (events : List (Event B)) (i j : ℕ) (b c : B)
        → (reached events).now < opened + ttl_seconds * second
        → (reached events).stage i ≡ done (ok b)
        → (reached events).stage j ≡ done (ok c)
        → (b ≡ c) × ((reached events).executions ≡ 1)
    same_answer events i j b c early hb hc = same_in i j b c (Phase-run events early) hb hc
