-- ===== src/Queue/Laws.antt =====
-- What app/queue.py relies on of Redis streams, as the documentation of the commands states it, and which
-- of the queue's operations take back and acknowledge nothing.
use lead_generation_api_zyla.Prelude.{
  ℕ, ◌+◌, ◌≤◌, ◌<◌, length, arith, String, ◌≡◌, some, List, All, ◌⊎◌,
}
use lead_generation_api_zyla.Errors.{Result, ok, err}
use lead_generation_api_zyla.Exec.{Exec, continue, lift, ◌>>=◌}
use lead_generation_api_zyla.Jobs.{QueueMessage}
use lead_generation_api_zyla.Queue.Entries.{
  Fields, Entry, messages_of, extend_all, claimed_messages, streams_of,
}
use lead_generation_api_zyla.Queue.{Commands, ensure_group, enqueue, claim_pending, read}

-- `posted s e`: the entry was added to the stream, though `maxlen` may have trimmed it since; `held s n e`:
-- it is in the stream, and at most `n` entries were added after it; `acked s id`: the group has
-- acknowledged it
module _ {S : Type 0} (posted : S → Entry → Type 0) (held : S → ℕ → Entry → Type 0)
    (acked : S → String → Type 0) where
  -- a command that acknowledges no entry, adds at most `cost`, and trims none of the youngest `most`
  pub record Quiet (most cost : ℕ) {A : Type 0} (command : Exec S A) : Type 0 where
    pub keeps : (s : S) (e : Entry) → posted s e → posted (command s).1 e
    pub holds :
        (s : S) (n : ℕ) (e : Entry)
        → n + cost < most
        → held s n e
        → (k : ℕ) × (k ≤ n + cost) × held (command s).1 k e
    pub acks_none : (s : S) (id : String) → acked (command s).1 id → acked s id

  pub record IsStream (redis : Commands S) : Type 0 where
    pub create-Quiet : (most : ℕ) → Quiet most 0 redis.xgroup_create
    -- XADD trims down to no less than `maxlen` entries, the youngest
    pub add-Quiet : (fields : Fields) (maxlen : ℕ) → Quiet maxlen 1 (redis.xadd fields maxlen)
    pub claim-Quiet :
        (most min_idle_time count : ℕ) → Quiet most 0 (redis.xautoclaim min_idle_time count)
    pub read-Quiet : (most count : ℕ) → Quiet most 0 (redis.xreadgroup count)
    pub held_posted : (s : S) (n : ℕ) (e : Entry) → held s n e → posted s e
    pub ack_holds :
        (id : String) (s : S) (n : ℕ) (e : Entry) → held s n e → held (redis.xack id s).1 n e
    pub ack_keeps : (id : String) (s : S) (e : Entry) → posted s e → posted (redis.xack id s).1 e
    -- XACK acknowledges the entry of that id, or none
    pub ack_one : (id k : String) (s : S) → acked (redis.xack id s).1 k → (k ≡ id) ⊎ acked s k
    -- an id is given once, and the fields of an entry do not change
    pub fixed : (s : S) (e e' : Entry) → posted s e → posted s e' → e.0 ≡ e'.0 → e ≡ e'
    pub added :
        (fields : Fields) (maxlen : ℕ) (s s' : S) (id : String)
        → redis.xadd fields maxlen s ≡ (ok id, s')
        → 0 < maxlen
        → held s' 0 (id, fields) × ¬ acked s' id
    pub claims_posted :
        (min_idle_time count : ℕ) (s s' : S) (entries : List Entry)
        → redis.xautoclaim min_idle_time count s ≡ (ok (some entries), s')
        → All (posted s') entries × (length entries ≤ count)
    pub reads_posted :
        (count : ℕ) (s s' : S) (streams : List (String × List Entry))
        → redis.xreadgroup count s ≡ (ok (some streams), s')
        → All (λ p. All (posted s') p.1) streams

  Quiet-bind :
      {A B : Type 0} (most c d : ℕ) (m : Exec S A) (f : A → Exec S B)
      → Quiet most c m
      → ((a : A) → Quiet most d (f a))
      → Quiet most (c + d) (m >>= f)
  unfolding ◌>>=◌
  Quiet-bind {A} {B} most c d m f hm h = record {
    keeps = λ s e p. kept e (m s) (hm.keeps s e p);
    holds = λ s n e r p. still n e (m s) r (hm.holds s n e (omega arith) p);
    acks_none = λ s id k. hm.acks_none s id (acked_before id (m s) k);
  }
    where
      kept : (e : Entry) (p : Result A × S) → posted p.1 e → posted (continue p.0 f p.1).1 e
      kept e (ok a, s) h' = (h a).keeps s e h'
      kept e (err x, s) h' = h'

      still :
          (n : ℕ) (e : Entry) (p : Result A × S)
          → n + (c + d) < most
          → (k : ℕ) × (k ≤ n + c) × held p.1 k e
          → (k : ℕ) × (k ≤ n + (c + d)) × held (continue p.0 f p.1).1 k e
      still n e (ok a, s) r (k, le, p) =
          let (k', le', p') = (h a).holds s k e (omega arith) p in (k', omega arith, p')
      still n e (err x, s) r (k, le, p) = (k, omega arith, p)

      acked_before :
          (id : String) (p : Result A × S) → acked (continue p.0 f p.1).1 id → acked p.1 id
      acked_before id (ok a, s) k = (h a).acks_none s id k
      acked_before id (err x, s) k = k

  Quiet-lift : {A : Type 0} (most : ℕ) (r : Result A) → Quiet most 0 (lift r)
  Quiet-lift most r = record {
    keeps = λ s e p. p;
    holds = λ s n e r p. (n, omega arith, p);
    acks_none = λ s id k. k;
  }

  module _ (redis : Commands S) (stream : IsStream redis) where
    ensure_group-Quiet : Quiet 10000 0 (ensure_group redis)
    unfolding ensure_group
    ensure_group-Quiet = record {
      keeps = (stream.create-Quiet 10000).keeps;
      holds = (stream.create-Quiet 10000).holds;
      acks_none = (stream.create-Quiet 10000).acks_none;
    }

    pub enqueue-Quiet : (m : QueueMessage) → Quiet 10000 1 (enqueue redis m)
    unfolding enqueue
    enqueue-Quiet m =
        Quiet-bind 10000 0 1 (ensure_group redis) _ ensure_group-Quiet
          (λ _. stream.add-Quiet _ 10000)

    pub claim_pending-Quiet : Quiet 10000 0 (claim_pending redis)
    unfolding claim_pending
    claim_pending-Quiet = Quiet-bind 10000 0 0 (ensure_group redis) _ ensure_group-Quiet (λ _.
        Quiet-bind 10000 0 0 (redis.xautoclaim 60000 10) _ (stream.claim-Quiet 10000 60000 10)
          (λ r. Quiet-lift 10000 (messages_of (claimed_messages r))))

    pub read-Quiet : Quiet 10000 0 (read redis)
    unfolding read
    read-Quiet = Quiet-bind 10000 0 0 (ensure_group redis) _ ensure_group-Quiet (λ _.
        Quiet-bind 10000 0 0 (redis.xreadgroup 10) _ (stream.read-Quiet 10000 10)
          (λ r. Quiet-lift 10000 (extend_all (streams_of r))))
