-- ===== src/Queue/Messages.antt =====
-- What the messages that app/queue.py reads and enqueues say, as the documented commands make them.
use lead_generation_api_zyla.Prelude.{
  ℕ, suc, ◌+◌, ◌≤◌, ◌<◌, length, arith, String, ◌≡◌, refl, sym, ap, Option, none, some, List, [],
  ◌∷◌, ◌++◌, All, All-append, inl, inr, ◌≢◌, ◌∙◌,
}
use lead_generation_api_zyla.Errors.{Result, ok, err, Holds, ◌>>=◌}
use lead_generation_api_zyla.Exec.{Exec, continue, ◌>>=◌ as bind}
use lead_generation_api_zyla.Jobs.{QueueMessage}
use lead_generation_api_zyla.Queue.Entries.{
  Fields, Entry, Delivery, field_of, message_of, messages_of, extend_all, claimed_messages,
  streams_of,
}
use lead_generation_api_zyla.Queue.{Commands, ensure_group, enqueue, claim_pending, read}
use lead_generation_api_zyla.Queue.Laws.{Quiet, IsStream}

ok_inj : {a b : String} → ok a ≡ ok b → a ≡ b
ok_inj h = cc

module _ {S : Type 0} (posted : S → Entry → Type 0) (held : S → ℕ → Entry → Type 0)
    (acked : S → String → Type 0) where
  -- what a message says is what an entry of the stream says
  abbrev pub IsGenuine : S → Delivery → Type 0
  IsGenuine s d =
      (fields : Fields) × posted s (d.message_id, fields)
      × (field_of "job_id" fields ≡ ok d.message.job_id)

  message_of-IsGenuine : (s : S) (e : Entry) → posted s e → Holds (IsGenuine s) (message_of e)
  unfolding message_of
  message_of-IsGenuine s (id, fields) p =
      go (field_of "job_id" fields) (field_of "kind" fields) refl
    where
      go :
          (r q : Result String)
          → field_of "job_id" fields ≡ r
          → Holds (IsGenuine s) (
              r >>= λ job_id. q >>= λ kind.
              ok (record { message_id = id; message = record { job_id = job_id; kind = kind } }))
      go (ok job_id) (ok kind) e = (fields, p, e)
      go (ok job_id) (err x) e = tt
      go (err x) q e = tt

  -- two lists of messages that are genuine, in sequence
  both-AreGenuine :
      (s : S) (first second : Result (List Delivery))
      → Holds (All (IsGenuine s)) first
      → Holds (All (IsGenuine s)) second
      → Holds (All (IsGenuine s)) (first >>= λ ms. second >>= λ rest. ok (ms ++ rest))
  both-AreGenuine s (ok ms) (ok rest) h k = All-append (IsGenuine s) ms rest h k
  both-AreGenuine s (ok ms) (err x) h k = tt
  both-AreGenuine s (err x) second h k = tt

  messages_of-AreGenuine :
      (s : S) (entries : List Entry)
      → All (posted s) entries
      → Holds (All (IsGenuine s)) (messages_of entries)
  unfolding messages_of
  messages_of-AreGenuine s [] h = tt
  messages_of-AreGenuine s (x ∷ entries) (p, h) =
      go (message_of x) (messages_of entries) (message_of-IsGenuine s x p)
        (messages_of-AreGenuine s entries h)
    where
      go :
          (r : Result Delivery) (q : Result (List Delivery))
          → Holds (IsGenuine s) r
          → Holds (All (IsGenuine s)) q
          → Holds (All (IsGenuine s)) (r >>= λ m. q >>= λ rest. ok (m ∷ rest))
      go (ok m) (ok rest) h k = (h, k)
      go (ok m) (err e) h k = tt
      go (err e) q h k = tt

  messages_of-length :
      (entries : List Entry) → Holds (λ ds. length ds ≡ length entries) (messages_of entries)
  unfolding messages_of
  messages_of-length [] = refl
  messages_of-length (x ∷ entries) =
      go (message_of x) (messages_of entries) (messages_of-length entries)
    where
      go :
          (r : Result Delivery) (q : Result (List Delivery))
          → Holds (λ ds. length ds ≡ length entries) q
          → Holds (λ ds. length ds ≡ suc (length entries)) (r >>= λ m. q >>= λ rest. ok (m ∷ rest))
      go (ok m) (ok rest) k = ap suc k
      go (ok m) (err e) k = tt
      go (err e) q k = tt

  extend_all-AreGenuine :
      (s : S) (streams : List (String × List Entry))
      → All (λ p. All (posted s) p.1) streams
      → Holds (All (IsGenuine s)) (extend_all streams)
  unfolding extend_all
  extend_all-AreGenuine s [] h = tt
  extend_all-AreGenuine s ((name, entries) ∷ streams) (p, h) =
      both-AreGenuine s (messages_of entries) (extend_all streams)
        (messages_of-AreGenuine s entries p) (extend_all-AreGenuine s streams h)

  abbrev pub AreGenuine : S → List Delivery → Type 0
  AreGenuine s = All (IsGenuine s)

  -- a call that returns gives a result that has a property at the state after it
  abbrev pub Gives : {A : Type 0} → (S → A → Type 0) → Result A × S → Type 0
  Gives P (r, s) = Holds (P s) r

  Gives-bind :
      {A B : Type 0} (P : S → B → Type 0) (m : Exec S A) (f : A → Exec S B) (s : S)
      → ((a : A) (s' : S) → m s ≡ (ok a, s') → Gives P (f a s'))
      → Gives P (bind m f s)
  unfolding bind
  Gives-bind {A} {B} P m f s h = go (m s) refl
    where
      go : (p : Result A × S) → m s ≡ p → Gives P (continue p.0 f p.1)
      go (ok a, s') e = h a s' e
      go (err x, s') e = tt

  module _ (redis : Commands S) (stream : IsStream posted held acked redis) where
    -- at most ten messages are claimed, each of them genuine
    pub claim_pending-AreGenuine :
        (s : S) → Gives (λ s' ds. AreGenuine s' ds × (length ds ≤ 10)) (claim_pending redis s)
    unfolding claim_pending
    claim_pending-AreGenuine s = Gives-bind Claimed (ensure_group redis) _ s (λ u s1 e1.
        Gives-bind Claimed (redis.xautoclaim 60000 10) _ s1
          (λ reply s2 e2. of_reply reply s1 s2 e2))
      where
        Claimed : S → List Delivery → Type 0
        Claimed s' ds = AreGenuine s' ds × (length ds ≤ 10)

        of_entries :
            (s' : S) (entries : List Entry) (r : Result (List Delivery))
            → Holds (AreGenuine s') r
            → Holds (λ ds. length ds ≡ length entries) r
            → length entries ≤ 10
            → Holds (Claimed s') r
        of_entries s' entries (ok ds) h k le = (h, omega (arith, k, le))
        of_entries s' entries (err x) h k le = tt

        of_reply :
            (reply : Option (List Entry)) (s1 s2 : S)
            → redis.xautoclaim 60000 10 s1 ≡ (ok reply, s2)
            → Holds (Claimed s2) (messages_of (claimed_messages reply))
        of_reply none s1 s2 e =
            of_entries s2 [] _ (messages_of-AreGenuine s2 [] tt) (messages_of-length [])
              (omega arith)
        of_reply (some entries) s1 s2 e =
            let (there, le) = stream.claims_posted 60000 10 s1 s2 entries e in
            of_entries s2 entries _ (messages_of-AreGenuine s2 entries there)
              (messages_of-length entries) le

    pub read-AreGenuine : (s : S) → Gives AreGenuine (read redis s)
    unfolding read
    read-AreGenuine s = Gives-bind AreGenuine (ensure_group redis) _ s (λ u s1 e1.
        Gives-bind AreGenuine (redis.xreadgroup 10) _ s1 (λ reply s2 e2. of_reply reply s1 s2 e2))
      where
        of_reply :
            (reply : Option (List (String × List Entry))) (s1 s2 : S)
            → redis.xreadgroup 10 s1 ≡ (ok reply, s2)
            → Holds (All (IsGenuine s2)) (extend_all (streams_of reply))
        of_reply none s1 s2 e = extend_all-AreGenuine s2 [] tt
        of_reply (some streams) s1 s2 e =
            extend_all-AreGenuine s2 streams (stream.reads_posted 10 s1 s2 streams e)

    -- a message of the job is held in the stream, and is not acknowledged; it stays there when at most
    -- `b` more are enqueued, since `enqueue` trims none of the youngest 10000
    abbrev pub Waits : ℕ → S → String → Type 0
    Waits b s job_id =
        (n : ℕ) × (e : Entry) × held s n e
        × (n + b < 10000)
        × ¬ (acked s e.0)
        × (field_of "job_id" e.1 ≡ ok job_id)

    pub Waits-le : (b c : ℕ) (s : S) (job_id : String) → c ≤ b → Waits b s job_id → Waits c s job_id
    Waits-le b c s job_id le (n, e, there, room, waits, own) =
        (n, e, there, omega arith, waits, own)

    pub enqueue-Waits :
        (b : ℕ) (m : QueueMessage) (s : S)
        → b < 10000
        → Gives (λ s' id. Waits b s' m.job_id) (enqueue redis m s)
    unfolding enqueue field_of
    enqueue-Waits b m s room =
        Gives-bind (λ s' id. Waits b s' m.job_id) (ensure_group redis) _ s
          (λ u s1 e1. new_entry s1 (redis.xadd fields 10000 s1) refl)
      where
        fields : Fields
        fields = ("job_id", m.job_id) ∷ ("kind", m.kind) ∷ []

        new_entry :
            (s1 : S) (p : Result String × S)
            → redis.xadd fields 10000 s1 ≡ p
            → Gives (λ s' id. Waits b s' m.job_id) p
        new_entry s1 (ok id, s2) e =
            let (there, open_) = stream.added fields 10000 s1 s2 id e (omega arith) in
            (0, (id, fields), there, omega arith, open_, refl)
        new_entry s1 (err x, s2) e = tt

    -- what acknowledges nothing and enqueues little leaves the messages that wait
    pub Quiet-Waits :
        {A : Type 0} (c b : ℕ) (m : Exec S A) (s : S) (job_id : String)
        → Quiet posted held acked 10000 c m
        → Waits (c + b) s job_id
        → Waits b (m s).1 job_id
    Quiet-Waits c b m s job_id q (n, e, there, room, waits, own) =
        let (k, le, still) = q.holds s n e (omega arith) there in
        (k, e, still, omega arith, (λ a. waits (q.acks_none s e.0 a)), own)

    pub Quiet-AreGenuine :
        {A : Type 0} (c : ℕ) (m : Exec S A) (s : S) (ds : List Delivery)
        → Quiet posted held acked 10000 c m
        → All (IsGenuine s) ds
        → All (IsGenuine (m s).1) ds
    Quiet-AreGenuine c m s [] q h = tt
    Quiet-AreGenuine c m s (d ∷ ds) q ((fields, there, own), h) =
        ((fields, q.keeps s _ there, own), Quiet-AreGenuine c m s ds q h)

    pub xack-AreGenuine :
        (id : String) (s : S) (ds : List Delivery)
        → All (IsGenuine s) ds
        → All (IsGenuine (redis.xack id s).1) ds
    xack-AreGenuine id s [] h = tt
    xack-AreGenuine id s (d ∷ ds) ((fields, there, own), h) =
        ((fields, stream.ack_keeps id s _ there, own), xack-AreGenuine id s ds h)

    -- An acknowledgement of one job's message leaves those of the other jobs.
    pub xack-Waits :
        (b : ℕ) (d : Delivery) (s : S) (job_id : String)
        → IsGenuine s d
        → job_id ≢ d.message.job_id
        → Waits b s job_id
        → Waits b (redis.xack d.message_id s).1 job_id
    xack-Waits b d s job_id (fields, posted_d, own_d) ne (n, e, there, room, waits, own) =
        (n, e, stream.ack_holds d.message_id s n e there, room, still, own)
      where
        still : ¬ acked (redis.xack d.message_id s).1 e.0
        still k = elim (stream.ack_one d.message_id e.0 s k) [
          | inl same ↦
              let equal : e ≡ (d.message_id, fields) =
                stream.fixed s e (d.message_id, fields) (stream.held_posted s n e there) posted_d
                  same in
              ne (ok_inj (sym own ∙ (ap (λ (x : Entry). field_of "job_id" x.1) equal ∙ own_d)))
          | inr before ↦ waits before
        ]
