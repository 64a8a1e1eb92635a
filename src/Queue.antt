-- ===== src/Queue.antt =====
-- app/queue.py: `RedisJobQueue`. The Redis server is not the repository's code: its commands on the
-- stream and group of the settings, by the consumer of the settings, are parameters. `aclose` of the
-- connection changes nothing that is modelled.
pub mod Entries
pub mod Laws
pub mod Messages
pub mod Worker
pub mod Settled
pub mod Covered
pub mod Ready
pub mod Handle
pub mod Safety
pub mod Submission
mod DemoStream
mod DemoLaws
mod Tests
use lead_generation_api_zyla.Prelude.{
  ℕ, String, Bool, true, false, Option, none, some, List, [], ◌∷◌, if◌then◌else◌,
}
use lead_generation_api_zyla.Prelude.Text.{contains}
use lead_generation_api_zyla.Errors.{Raised, Result, ok, err, response_error}
use lead_generation_api_zyla.Exec.{Exec, lift, ◌>>=◌, ◌>>◌}
use lead_generation_api_zyla.Jobs.{QueueMessage}
use Entries.{Fields, Entry, Delivery, messages_of, extend_all, claimed_messages, streams_of}

-- the commands that the queue calls, on the server's state `S`: each returns a reply or raises
pub record Commands (S : Type 0) : Type 0 where
  pub xgroup_create : Exec S (Unit {0})
  -- the fields and `maxlen`, giving the id of the new entry
  pub xadd : Fields → ℕ → Exec S String
  -- `min_idle_time` and `count`, giving the second part of the reply, if it has one
  pub xautoclaim : ℕ → ℕ → Exec S (Option (List Entry))
  -- `count`, giving the entries of each stream, if there are any
  pub xreadgroup : ℕ → Exec S (Option (List (String × List Entry)))
  -- the id of the entry
  pub xack : String → Exec S (Unit {0})

-- the `except ResponseError` of `ensure_group`
abbrev pub unless_busy : Result (Unit {0}) → Result (Unit {0})
unless_busy (ok _) = ok tt
unless_busy (err (response_error text)) =
    if contains "BUSYGROUP" text then ok tt else err (response_error text)
unless_busy (err exc) = err exc

module _ {S : Type 0} (redis : Commands S) where
  -- `ensure_group`
  unfoldable pub ensure_group : Exec S (Unit {0})
  ensure_group s = let (reply, s') = redis.xgroup_create s in (unless_busy reply, s')

  -- `enqueue`
  unfoldable pub enqueue : QueueMessage → Exec S String
  enqueue m = ensure_group >> redis.xadd (("job_id", m.job_id) ∷ ("kind", m.kind) ∷ []) 10000

  -- `claim_pending`, with the defaults that the worker uses
  unfoldable pub claim_pending : Exec S (List Delivery)
  claim_pending = do
    ensure_group
    result ← redis.xautoclaim 60000 10
    lift (messages_of (claimed_messages result))

  -- `read`
  unfoldable pub read : Exec S (List Delivery)
  read = do ensure_group; result ← redis.xreadgroup 10; lift (extend_all (streams_of result))

  -- `acknowledge`
  abbrev pub acknowledge : String → Exec S (Unit {0})
  acknowledge message_id = redis.xack message_id
