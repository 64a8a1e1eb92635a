-- ===== src/Queue/Entries.antt =====
-- `_convert` of app/queue.py, and how `read` and `claim_pending` take a reply apart.
use lead_generation_api_zyla.Prelude.{String, ◌==◌, Option, none, some, List, [], ◌∷◌, ◌++◌, find}
use lead_generation_api_zyla.Errors.{Result, ok, err, unexpected, ◌>>=◌}
use lead_generation_api_zyla.Jobs.{QueueMessage}

abbrev pub Fields : Type 0
Fields = List (String × String)

-- an entry of the stream: its id and its fields
abbrev pub Entry : Type 0
Entry = String × Fields

-- a `QueueMessage`, with its `message_id`
pub record Delivery : Type 0 where
  pub message_id : String
  pub message : QueueMessage

abbrev of_field : Option (String × String) → Result String
of_field none = err (unexpected "KeyError")
of_field (some (_, value)) = ok value

-- `fields[name]`
unfoldable pub field_of : String → Fields → Result String
field_of name fields = of_field (find (λ f. f.0 == name) fields)

-- `_convert`
unfoldable pub message_of : Entry → Result Delivery
message_of (message_id, fields) = do
  job_id ← field_of "job_id" fields
  kind ← field_of "kind" fields
  ok (record { message_id = message_id; message = record { job_id = job_id; kind = kind } })

unfoldable pub messages_of : List Entry → Result (List Delivery)
messages_of [] = ok []
messages_of (e ∷ entries) = do m ← message_of e; rest ← messages_of entries; ok (m ∷ rest)

-- `messages.extend(…)` for each stream of a reply
unfoldable pub extend_all : List (String × List Entry) → Result (List Delivery)
extend_all [] = ok []
extend_all ((_, entries) ∷ streams) = do
  ms ← messages_of entries
  rest ← extend_all streams
  ok (ms ++ rest)

-- `result[1] if len(result) > 1 else []`
abbrev pub claimed_messages : Option (List Entry) → List Entry
claimed_messages none = []
claimed_messages (some messages) = messages

-- `result or []`
abbrev pub streams_of : Option (List (String × List Entry)) → List (String × List Entry)
streams_of none = []
streams_of (some streams) = streams
