-- ===== src/Protocol/Redis/Commands.antt =====
-- The command layer of redis.go: from a RESP array to a command, its category and its key.
pub mod Laws
use ebpf_probe.Prelude.{
  ℕ, zero, suc, Bool, true, false, List, [], ◌∷◌, ◌++◌, Option, none, some, Outcome, ok, err, panic,
  ◌>>=◌, Bytes, codes, to_upper, bytes_eq, any, if◌then◌else◌,
}
use ebpf_probe.Protocol.Redis.{
  Resp, Items, simple, bulk, array, bulk_nil, array_nil, nil, cons, RedisError, not_array,
  invalid_array, empty_command, invalid_command_name, parse_redis_packet,
}

pub record RedisCommand : Type 0 where
  pub name : Bytes
  pub args : List Bytes
  pub raw : Bytes

-- `elem.Value.(string)`: simple values and bulk strings hold a Go string.
unfoldable pub string_value : Resp → Option Bytes
string_value (simple t s) = some s
string_value (bulk s) = some s
string_value _ = none

-- The elements that are no strings are left out.
unfoldable pub string_args : Items → List Bytes
unfolding string_value
string_args nil = []
string_args (cons x xs) = elim (string_value x) [
  | none ↦ string_args xs
  | some s ↦ s ∷ string_args xs
]

-- A nil array has the type of an array and no elements to be read as `[]*RedisRESP`.
unfoldable pub command_of : Bytes → Resp → Outcome RedisError RedisCommand
unfolding string_value string_args
command_of d array_nil = err invalid_array
command_of d (array nil) = err empty_command
command_of d (array (cons x xs)) = elim (string_value x) [
  | none ↦ err invalid_command_name
  | some s ↦ ok (record { name = to_upper s; args = string_args xs; raw = d })
]
command_of d _ = err not_array

unfoldable pub parse_redis_command : Bytes → Outcome RedisError RedisCommand
unfolding command_of
parse_redis_command d = parse_redis_packet d >>= command_of d

pub data Category : Type 0 where
  read write admin pubsub transaction connection : Category

-- redisCommandCategories, by category.
abbrev pub read_commands : List Bytes
read_commands =
    codes "GET"
    ∷ codes "MGET"
    ∷ codes "HGET"
    ∷ codes "HGETALL"
    ∷ codes "HMGET"
    ∷ codes "HKEYS"
    ∷ codes "HVALS"
    ∷ codes "HLEN"
    ∷ codes "HEXISTS"
    ∷ codes "LLEN"
    ∷ codes "LRANGE"
    ∷ codes "LINDEX"
    ∷ codes "SMEMBERS"
    ∷ codes "SISMEMBER"
    ∷ codes "SCARD"
    ∷ codes "ZRANGE"
    ∷ codes "ZSCORE"
    ∷ codes "ZCARD"
    ∷ codes "STRLEN"
    ∷ []

abbrev pub write_commands : List Bytes
write_commands =
    codes "SET"
    ∷ codes "DEL"
    ∷ codes "MSET"
    ∷ codes "INCR"
    ∷ codes "DECR"
    ∷ codes "APPEND"
    ∷ codes "SETEX"
    ∷ codes "SETNX"
    ∷ codes "GETSET"
    ∷ codes "HSET"
    ∷ codes "HDEL"
    ∷ codes "HMSET"
    ∷ codes "LPUSH"
    ∷ codes "RPUSH"
    ∷ codes "LPOP"
    ∷ codes "RPOP"
    ∷ codes "LSET"
    ∷ codes "LREM"
    ∷ codes "SADD"
    ∷ codes "SREM"
    ∷ codes "ZADD"
    ∷ codes "ZREM"
    ∷ []

abbrev pub pubsub_commands : List Bytes
pubsub_commands = codes "PUBLISH" ∷ []

abbrev pub transaction_commands : List Bytes
transaction_commands = codes "MULTI" ∷ codes "EXEC" ∷ codes "DISCARD" ∷ []

abbrev pub connection_commands : List Bytes
connection_commands =
    codes "PING" ∷ codes "AUTH" ∷ codes "SELECT" ∷ codes "QUIT" ∷ codes "ECHO" ∷ []

abbrev pub admin_commands : List Bytes
admin_commands = codes "INFO" ∷ codes "DBSIZE" ∷ codes "FLUSHALL" ∷ codes "FLUSHDB" ∷ []

-- `_, ok := m[k]`, over the keys.
unfoldable pub is_one_of : List Bytes → Bytes → Bool
unfolding bytes_eq
is_one_of keys k = any (bytes_eq k) keys

-- A command that the table does not have counts as a read.
unfoldable pub get_redis_command_category : Bytes → Category
unfolding is_one_of
get_redis_command_category c =
    if is_one_of read_commands c
    then read
    else if is_one_of write_commands c
    then write
    else if is_one_of pubsub_commands c
    then pubsub
    else if is_one_of transaction_commands c
    then transaction
    else if is_one_of connection_commands c
    then connection
    else if is_one_of admin_commands c
    then admin
    else read

-- The commands whose first argument is a key, in the order of the cases of GetRedisKey.
abbrev pub keyed_commands : List Bytes
keyed_commands =
    codes "GET"
    ∷ codes "SET"
    ∷ codes "DEL"
    ∷ codes "APPEND"
    ∷ codes "SETEX"
    ∷ codes "SETNX"
    ∷ codes "GETSET"
    ∷ codes "STRLEN"
    ∷ codes "MGET"
    ∷ codes "MSET"
    ∷ codes "INCR"
    ∷ codes "DECR"
    ∷ codes "HSET"
    ∷ codes "HGET"
    ∷ codes "HDEL"
    ∷ codes "HGETALL"
    ∷ codes "HMSET"
    ∷ codes "HMGET"
    ∷ codes "HKEYS"
    ∷ codes "HVALS"
    ∷ codes "HLEN"
    ∷ codes "HEXISTS"
    ∷ codes "LPUSH"
    ∷ codes "RPUSH"
    ∷ codes "LPOP"
    ∷ codes "RPOP"
    ∷ codes "LLEN"
    ∷ codes "LRANGE"
    ∷ codes "LINDEX"
    ∷ codes "LSET"
    ∷ codes "LREM"
    ∷ codes "SADD"
    ∷ codes "SMEMBERS"
    ∷ codes "SREM"
    ∷ codes "SISMEMBER"
    ∷ codes "SCARD"
    ∷ codes "ZADD"
    ∷ codes "ZRANGE"
    ∷ codes "ZREM"
    ∷ codes "ZSCORE"
    ∷ codes "ZCARD"
    ∷ []

-- The empty string if there is no key.
abbrev pub first_or_empty : List Bytes → Bytes
first_or_empty [] = []
first_or_empty (a ∷ rest) = a

unfoldable pub get_redis_key : RedisCommand → Bytes
unfolding is_one_of
get_redis_key cmd = if is_one_of keyed_commands cmd.name then first_or_empty cmd.args else []
