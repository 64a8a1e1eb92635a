-- ===== src/Replay/Keeps.antt =====
-- About the replay-safe part of `search_leads` of app/main.py: the database that it leaves.
use lead_generation_api_zyla.Prelude.{
  ℕ, String, Bool, true, false, ◌==◌, Option, none, some, Bool-cases, inl, inr,
}
use lead_generation_api_zyla.Errors.{Result, ok, err}
use lead_generation_api_zyla.Exec.{Exec}
use lead_generation_api_zyla.Idempotency.{Store, IdempotencyHit, get, reserve}
use lead_generation_api_zyla.Replay.{
  Process, finish, run_reserved, run_looked_up, without_key, replay_safe,
}

module _ {D B : Type 0} (ttl_seconds : ℕ) (search : Exec D B) (P : D → Type 0)
    (keeps : (d : D) → P d → P (search d).1) where
  finish-keeps :
      (finished : ℕ) (key fingerprint : String) (store : Store B) (q : Result B × D)
      → P q.1
      → P (finish ttl_seconds search finished key fingerprint store q).1.db
  unfolding finish
  finish-keeps finished key fingerprint store (ok b, db) h = h
  finish-keeps finished key fingerprint store (err e, db) h = h

  reserved-keeps :
      (finished : ℕ) (key fingerprint : String) (db : D) (q : Result Bool × Store B)
      → P db
      → P (run_reserved ttl_seconds search finished key fingerprint db q).1.db
  unfolding run_reserved
  reserved-keeps finished key fingerprint db (ok true, store) h =
      finish-keeps finished key fingerprint store (search db) (keeps db h)
  reserved-keeps finished key fingerprint db (ok false, store) h = h
  reserved-keeps finished key fingerprint db (err e, store) h = h

  looked_up-keeps :
      (started finished : ℕ) (key fingerprint : String) (db : D)
      (q : Result (Option (IdempotencyHit B)) × Store B)
      → P db
      → P (run_looked_up ttl_seconds search started finished key fingerprint db q).1.db
  unfolding run_looked_up
  looked_up-keeps started finished key fingerprint db (ok (some hit), store) h = h
  looked_up-keeps started finished key fingerprint db (ok none, store) h =
      reserved-keeps finished key fingerprint db (reserve ttl_seconds started key fingerprint store)
        h
  looked_up-keeps started finished key fingerprint db (err e, store) h = h

  pub replay_safe-keeps :
      (started finished : ℕ) (key : Option String) (fingerprint : String) (p : Process D B)
      → P p.db
      → P (replay_safe ttl_seconds search started finished key fingerprint p).1.db
  unfolding replay_safe without_key
  replay_safe-keeps started finished none fingerprint p h = keeps p.db h
  replay_safe-keeps started finished (some key) fingerprint p h = elim (Bool-cases (key == "")) [
    | inl e ↦ rw e (keeps p.db h)
    | inr e ↦ rw e (
        looked_up-keeps started finished key fingerprint p.db
          (get ttl_seconds started key fingerprint p.store) h)
  ]
