-- ===== src/Queue/Ready.antt =====
-- About `run_worker` of scripts/worker.py: statements in sequence, and what holds between them.
use lead_generation_api_zyla.Prelude.{ℕ, ◌+◌, ◌≤◌, ◌≡◌, sym, subst, arith, String, List, [], All}
use lead_generation_api_zyla.Errors.{Result, ok, err}
use lead_generation_api_zyla.Exec.{Exec, continue, ◌>>=◌}
use lead_generation_api_zyla.Models.{Db}
use lead_generation_api_zyla.Queue.Entries.{Entry, Delivery}
use lead_generation_api_zyla.Queue.{Commands}
use lead_generation_api_zyla.Queue.Laws.{IsStream, Quiet}
use lead_generation_api_zyla.Queue.Messages.{AreGenuine, Gives}
use lead_generation_api_zyla.Queue.Covered.{
  IsCovered, AllCovered, AllButOneCovered, covered-le, but_one-le, weaker, Quiet-Covered,
}
use lead_generation_api_zyla.Queue.Worker.{on_queue}

module _ {S : Type 0} (posted : S → Entry → Type 0) (held : S → ℕ → Entry → Type 0)
    (acked : S → String → Type 0) (redis : Commands S)
    (stream : IsStream posted held acked redis) where
  -- the jobs are covered, also after that many more messages, and those still to be handled are genuine
  abbrev pub Ready : ℕ → List Delivery → S × Db → Type 0
  Ready b ds w = AllCovered posted held acked redis stream b w × AreGenuine posted held acked w.0 ds

  pub Ready-le : (b c : ℕ) (ds : List Delivery) (w : S × Db) → c ≤ b → Ready b ds w → Ready c ds w
  Ready-le b c ds w le (h, g) = (covered-le posted held acked redis stream b c w le h, g)

  unfoldable pub After : ℕ → List Delivery → Result (Unit {0}) × (S × Db) → Type 0
  After b ds (ok _, w) = Ready b ds w
  After b ds (err exc, w) = AllButOneCovered posted held acked redis stream b w

  pub After-bind :
      (b c : ℕ) (ds es : List Delivery) (m : Exec (S × Db) (Unit {0}))
      (f : Unit {0} → Exec (S × Db) (Unit {0})) (w : S × Db)
      → c ≤ b
      → After b ds (m w)
      → ((w' : S × Db) → Ready b ds w' → After c es (f tt w'))
      → After c es ((m >>= f) w)
  unfolding ◌>>=◌ After
  After-bind b c ds es m f w le h k = go (m w) h
    where
      go : (p : Result (Unit {0}) × (S × Db)) → After b ds p → After c es (continue p.0 f p.1)
      go (ok tt, w') r = k w' r
      go (err x, w') r = but_one-le posted held acked redis stream b c w' le r

  -- a call that gives messages, before what is done with them
  pub fetch-After :
      (b c : ℕ) (P : List Delivery → Type 0) (call : Exec S (List Delivery))
      (f : List Delivery → Exec (S × Db) (Unit {0})) (s : S) (db : Db)
      → c ≤ b
      → Quiet posted held acked 10000 0 call
      → Gives posted held acked (λ s' ds. AreGenuine posted held acked s' ds × P ds) (call s)
      → AllCovered posted held acked redis stream b (s, db)
      → ((ds : List Delivery) (w : S × Db) → P ds → Ready b ds w → After c [] (f ds w))
      → After c [] ((on_queue call >>= f) (s, db))
  unfolding ◌>>=◌ After
  fetch-After b c P call f s db le q g h k =
      let same : 0 + b ≡ b = omega arith in
      go (call s) g (
        Quiet-Covered posted held acked redis stream 0 b call s db.background_jobs q (
          subst (λ n. All (IsCovered posted held acked redis stream n s) db.background_jobs)
            (sym same) h.covered))
    where
      go :
          (p : Result (List Delivery) × S)
          → Gives posted held acked (λ s' ds. AreGenuine posted held acked s' ds × P ds) p
          → All (IsCovered posted held acked redis stream b p.1) db.background_jobs
          → After c [] (continue p.0 f (p.1, db))
      go (ok ds, s') (g', p) c' =
          k ds (s', db) p (record { distinct = h.distinct; covered = c' }, g')
      go (err x, s') g' c' =
          but_one-le posted held acked redis stream b c (s', db) le
            (weaker posted held acked redis stream b (s', db)
              (record { distinct = h.distinct; covered = c' }))
