-- ===== src/Infrastructure/RedisStream/Keys.antt =====
-- The key helpers of relayq/infrastructure/redis_stream.py, and how `list_queues` takes a key apart.
use Prim.Native.Char.{Char, code}
use Prim.Native.Nat.{Ordering}
use Prim.Native.String.{◌++◌, compare}
use relayq.Prelude.{String, Option, none, some, List, [], ◌∷◌, ◌==◌, if◌then◌else◌}

unfoldable pub stream_key : String → String → String
stream_key prefix queue = prefix ++ (":" ++ (queue ++ ":stream"))

unfoldable pub group_key : String → String → String
group_key prefix queue = prefix ++ (":" ++ (queue ++ ":group"))

unfoldable pub dlq_key : String → String → String
dlq_key prefix queue = prefix ++ (":" ++ (queue ++ ":dlq"))

unfoldable pub consumer_name : String → String
consumer_name worker_id = "worker-" ++ worker_id

-- The first piece goes on with `c`.
abbrev pub extend : Char → List String → List String
extend c [] = String.◌∷◌ c String.[] ∷ []
extend c (piece ∷ pieces) = String.◌∷◌ c piece ∷ pieces

-- `text.split(":")`
unfoldable pub split_colon : String → List String
split_colon String.[] = String.[] ∷ []
split_colon (String.◌∷◌ c s) =
    let rest = split_colon s in if code c == b':' then String.[] ∷ rest else extend c rest

-- `parts[1]`, if there are three parts or more.
abbrev pub second_of_three : List String → Option String
second_of_three (a ∷ b ∷ c ∷ rest) = some b
second_of_three _ = none

unfoldable pub queue_of_key : String → Option String
unfolding split_colon
queue_of_key key = second_of_three (split_colon key)

-- `queues.add(name)`; the set is kept as the list that `sorted` makes of it.
unfoldable pub insert_name : String → List String → List String
insert_name name [] = name ∷ []
insert_name name (x ∷ xs) =
    let rest = insert_name name xs in
    elim (compare name x) [
      | Ordering.lt ↦ name ∷ x ∷ xs
      | Ordering.eq ↦ x ∷ xs
      | Ordering.gt ↦ x ∷ rest
    ]

-- A key with less than three parts is passed over.
abbrev pub add_name : Option String → List String → List String
add_name none queues = queues
add_name (some name) queues = insert_name name queues
