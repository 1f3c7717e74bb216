-- ===== src/Protocol/Kafka/Wire.antt =====
-- kafka.go against the wire format of the Kafka protocol, written out as encoders.
use ebpf_probe.Prelude.{
  word16, word32, ℕ, ◌+◌, ◌^◌, ◌<◌, ◌≡◌, ap, ◌∙◌, ◌++◌, ok, Bytes, length, big_endian,
  length-append, get_or-append, take-append, drop-append, drop-drop, drop, arith, unsigned,
  IsInRange, signed-unsigned, unsigned_bound,
}
use ebpf_probe.Protocol.Kafka.{
  KafkaRequestHeader, int16, int32, parse_kafka_request_header, topic_name, topic_array,
}

-- A string behind its 16-bit length.
unfoldable pub encode_string : Bytes → Bytes
unfolding big_endian
encode_string s = big_endian 2 (length s) ++ s

unfoldable pub encode_header : KafkaRequestHeader → Bytes
unfolding big_endian encode_string
encode_header h =
    big_endian 2 (unsigned (2 ^ 15) h.api_key)
    ++ (big_endian 2 (unsigned (2 ^ 15) h.api_version)
        ++ (big_endian 4 (unsigned (2 ^ 31) h.correlation_id) ++ encode_string h.client_id))

-- The fields are within their types, and the client's name fits its length field.
pub record IsHeader (h : KafkaRequestHeader) : Type 0 where
  pub key : IsInRange (2 ^ 15) h.api_key
  pub version : IsInRange (2 ^ 15) h.api_version
  pub correlation : IsInRange (2 ^ 31) h.correlation_id
  pub client : length h.client_id < 2 ^ 16

header_words :
    (a b c : ℕ) (client rest : Bytes)
    → a < 2 ^ 16
    → b < 2 ^ 16
    → c < 2 ^ 32
    → length client < 2 ^ 16
    → parse_kafka_request_header
        (big_endian 2 a ++ (big_endian 2 b ++ (big_endian 4 c ++ (encode_string client ++ rest))))
      ≡ ok (
        record {
          api_key = int16 a;
          api_version = int16 b;
          correlation_id = int32 c;
          client_id = client;
        },
        10 + length client,
      )
unfolding parse_kafka_request_header big_endian encode_string
header_words a b c client rest ha hb hc hs = rw (word16 a ha) (
    rw (word16 b hb)
      (rw (word32 c hc) (ground (arith, length-append client rest, take-append client rest))))

-- A request header with its fields in range and a client id below 2^16 bytes is read back from its
-- bytes, with exactly its bytes consumed, whatever follows.
pub parse_kafka_request_header-encode_header :
    (h : KafkaRequestHeader) (rest : Bytes)
    → IsHeader h
    → parse_kafka_request_header (encode_header h ++ rest) ≡ ok (h, length (encode_header h))
unfolding encode_header int16 int32
parse_kafka_request_header-encode_header h rest v =
    header_words (unsigned (2 ^ 15) h.api_key) (unsigned (2 ^ 15) h.api_version)
      (unsigned (2 ^ 31) h.correlation_id) h.client_id rest
      (unsigned_bound (2 ^ 15) h.api_key v.key) (unsigned_bound (2 ^ 15) h.api_version v.version)
      (unsigned_bound (2 ^ 31) h.correlation_id v.correlation) v.client
    ∙ rw (signed-unsigned (2 ^ 15) h.api_key v.key) (
        rw (signed-unsigned (2 ^ 15) h.api_version v.version) (
          rw (signed-unsigned (2 ^ 31) h.correlation_id v.correlation)
            (ap (λ n. ok (h, n)) (omega arith))))

drop-behind : (before w : Bytes) → drop (length before + 4 + 2) (before ++ w) ≡ drop 6 w
drop-behind before w =
    ap (λ (k : ℕ). drop k (before ++ w)) {y = length before + 6} (omega arith)
    ∙ (drop-drop (length before) 6 (before ++ w) ∙ ap (drop 6) (drop-append before w))

-- The first topic of the array behind a prefix.
pub topic_array-encode_string :
    (before : Bytes) (n : ℕ) (topic rest : Bytes)
    → 0 < n
    → n < 2 ^ 32
    → length topic < 2 ^ 16
    → topic_array (before ++ (big_endian 4 n ++ (encode_string topic ++ rest))) (length before)
      ≡ ok topic
unfolding topic_array topic_name big_endian encode_string
topic_array-encode_string before n topic rest some bound short =
    let w = big_endian 4 n ++ (encode_string topic ++ rest) in
    ground (
      arith,
      length-append before w,
      length-append topic rest,
      take-append topic rest,
      drop-behind before w,
      get_or-append before w 0 0,
      get_or-append before w 1 0,
      get_or-append before w 2 0,
      get_or-append before w 3 0,
      get_or-append before w 4 0,
      get_or-append before w 5 0,
    )
