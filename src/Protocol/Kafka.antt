-- ===== src/Protocol/Kafka.antt =====
-- pkg/protocol/kafka.go: request and response headers and the topic of a request. `int` is taken
-- to have 64 bits, so that the lengths read from 16 and 32 bits are never negative.
pub mod Wire
pub mod Topics
pub mod Safety
mod Tests
use ebpf_probe.Prelude.{
  ℕ, ◌+◌, ◌*◌, ◌^◌, Bool, true, false, ◌&&◌, ◌||◌, List, [], ◌∷◌, Outcome, ok, err, panic, ◌>>=◌,
  ◌>>◌, fail_if, Bytes, slice, be16, be32, get_or, length, ltb, leb, ◌==◌, if◌then◌else◌, signed,
}
use ebpf_probe.Prelude.Decimal.{ℤ, pos, negsuc}

-- The error messages.
pub data KafkaError : Type 0 where
  short_request_header : KafkaError
  incomplete_client_id_length : KafkaError
  incomplete_client_id : KafkaError
  short_response_header : KafkaError
  short_request : KafkaError
  short_response : KafkaError

-- KafkaAPIKey is an int16.
abbrev pub int16 : ℕ → ℤ
unfolding signed
int16 w = signed (2 ^ 15) w

abbrev pub int32 : ℕ → ℤ
unfolding signed
int32 w = signed (2 ^ 31) w

pub record KafkaRequestHeader : Type 0 where
  pub api_key : ℤ
  pub api_version : ℤ
  pub correlation_id : ℤ
  pub client_id : Bytes

pub record KafkaResponseHeader : Type 0 where
  pub correlation_id : ℤ

pub record KafkaRequest : Type 0 where
  pub header : KafkaRequestHeader
  pub topic : Bytes

pub record KafkaResponse : Type 0 where
  pub header : KafkaResponseHeader

unfoldable pub parse_kafka_request_header : Bytes → Outcome KafkaError (KafkaRequestHeader × ℕ)
parse_kafka_request_header d = do
  fail_if (ltb (length d) 10) short_request_header
  key ← be16 d 0
  version ← be16 d 2
  correlation ← be32 d 4
  fail_if (ltb (length d) (8 + 2)) incomplete_client_id_length
  n ← be16 d 8
  fail_if (ltb (length d) (10 + n)) incomplete_client_id
  client ← slice d 10 (10 + n)
  ok (
    record {
      api_key = int16 key;
      api_version = int16 version;
      correlation_id = int32 correlation;
      client_id = client;
    },
    10 + n,
  )

unfoldable pub parse_kafka_response_header : Bytes → Outcome KafkaError (KafkaResponseHeader × ℕ)
parse_kafka_response_header d = do
  fail_if (ltb (length d) 4) short_response_header
  correlation ← be32 d 0
  ok (record { correlation_id = int32 correlation }, 4)

-- `if offset+n <= len(data) { offset += n }`
abbrev pub skip : Bytes → ℕ → ℕ → ℕ
skip d offset n = if leb (offset + n) (length d) then offset + n else offset

-- The name of the first topic, at its length; it is left empty when it does not fit.
unfoldable pub topic_name : Bytes → ℕ → Outcome KafkaError Bytes
topic_name d offset = do
  n ← be16 d offset
  if leb (offset + 2 + n) (length d) then slice d (offset + 2) (offset + 2 + n) else ok []

-- The block on the topic array, which every kind of request ends with.
unfoldable pub topic_array : Bytes → ℕ → Outcome KafkaError Bytes
unfolding topic_name
topic_array d offset =
    if leb (offset + 4) (length d)
    then (do
      n ← be32 d offset
      if ltb 0 n && leb (offset + 4 + 2) (length d) then topic_name d (offset + 4) else ok [])
    else ok []

unfoldable pub produce_topic : Bytes → ℕ → Outcome KafkaError Bytes
unfolding topic_array
produce_topic d offset =
    if leb (offset + 2) (length d)
    then (do
      n ← be16 d offset
      let after_txn = offset + 2 + (if ltb 0 n then n else 0)
      let after_acks = skip d after_txn 2
      topic_array d (skip d after_acks 4))
    else ok []

unfoldable pub fetch_topic : Bytes → ℕ → Outcome KafkaError Bytes
unfolding topic_array
fetch_topic d offset =
    let after_wait = skip d offset 4 in
    let after_min = skip d after_wait 4 in
    let after_max = skip d after_min 4 in topic_array d (skip d after_max 1)

-- The `switch header.ApiKey`.
unfoldable pub request_topic : ℤ → Bytes → ℕ → Outcome KafkaError Bytes
unfolding topic_array produce_topic fetch_topic
request_topic (pos k) d offset =
    if k == 0
    then produce_topic d offset
    else if k == 1
    then fetch_topic d offset
    else if (k == 3 || k == 19) || k == 20
    then topic_array d offset
    else ok []
request_topic (negsuc k) d offset = ok []

-- The request with its topic, from behind its header.
unfoldable pub request_body : Bytes → KafkaRequestHeader × ℕ → Outcome KafkaError KafkaRequest
request_body d read = do
  topic ← request_topic (read.0).api_key d read.1
  ok (record { header = read.0; topic = topic })

unfoldable pub parse_kafka_request : Bytes → Outcome KafkaError KafkaRequest
parse_kafka_request d = do
  fail_if (ltb (length d) 10) short_request
  read ← parse_kafka_request_header d
  request_body d read

unfoldable pub parse_kafka_response : Bytes → Outcome KafkaError KafkaResponse
unfolding parse_kafka_response_header
parse_kafka_response d = do
  fail_if (ltb (length d) 4) short_response
  read ← parse_kafka_response_header d
  ok (record { header = read.0 })

-- `v < 0 || v > max`
abbrev pub is_outside : ℤ → ℕ → Bool
is_outside (pos n) max = ltb max n
is_outside (negsuc n) max = true

-- The size, the API key and the version at the head of a message; the guard on the length makes
-- the three reads safe.
unfoldable pub is_kafka_packet : Bytes → Bool
unfolding signed
is_kafka_packet d =
    let size =
      int32 (get_or d 0 0 * 2 ^ 24 + get_or d 1 0 * 2 ^ 16 + get_or d 2 0 * 256 + get_or d 3 0) in
    if ltb (length d) 10
    then false
    else if is_outside size 10485760
    then false
    else if is_outside (int16 (get_or d 4 0 * 256 + get_or d 5 0)) 62
    then false
    else if is_outside (int16 (get_or d 6 0 * 256 + get_or d 7 0)) 20
    then false
    else true
