-- ===== src/Protocol/Kafka/Topics.antt =====
-- kafka.go on whole requests: the topic is found behind the fields of each kind of request.
use mathlib.Core.Path.{ap₂}
use ebpf_probe.Prelude.{
  ℕ, ◌+◌, ◌^◌, ◌≤◌, ◌<◌, ◌≡◌, refl, ap, sym, ◌∙◌, append_assoc, append-nil, be16, [], ◌∷◌, ◌++◌, ok,
  Bytes, length, big_endian, length-append, get_or-append, arith, ge→ltb, Bool, true, false, ◌&&◌,
  leb,
}
use ebpf_probe.Prelude.Decimal.{ℤ, pos, negsuc}
use ebpf_probe.Protocol.Kafka.{
  KafkaError, KafkaRequestHeader, topic_array, produce_topic, request_topic, request_body,
  parse_kafka_request, skip,
}
use ebpf_probe.Protocol.Kafka.Wire.{
  encode_header, encode_string, IsHeader, parse_kafka_request_header-encode_header,
  topic_array-encode_string,
}

-- What stands between the header of a request and its topics, in the versions of the protocol that
-- `has_layout` names: the transactional id, the acks and the timeout; or nothing.
pub data Preface : Type 0 where
  produce : Bytes → ℕ → ℕ → Preface
  metadata : Preface
  create_topics : Preface
  delete_topics : Preface

abbrev pub api_key_of : Preface → ℤ
api_key_of (produce txn acks timeout) = pos 0
api_key_of metadata = pos 3
api_key_of create_topics = pos 19
api_key_of delete_topics = pos 20

unfoldable pub encode_preface : Preface → Bytes
unfolding encode_string big_endian
encode_preface (produce txn acks timeout) =
    encode_string txn ++ (big_endian 2 acks ++ big_endian 4 timeout)
encode_preface metadata = []
encode_preface create_topics = []
encode_preface delete_topics = []

abbrev pub IsPreface : Preface → Type 0
IsPreface (produce txn acks timeout) = length txn < 2 ^ 15
IsPreface _ = Unit {0}

-- The versions in which a request has this layout: a Produce request has a transactional id from
-- version 3 on, and the later versions of each kind have compact arrays.
abbrev pub has_layout : Preface → ℤ → Bool
has_layout (produce txn acks timeout) (pos v) = leb 3 v && leb v 8
has_layout metadata (pos v) = leb v 8
has_layout create_topics (pos v) = leb v 4
has_layout delete_topics (pos v) = leb v 3
has_layout p (negsuc v) = false

-- The topic array of `n` entries with its first name, and whatever follows it.
unfoldable pub encode_topics : ℕ → Bytes → Bytes → Bytes
encode_topics n topic rest = big_endian 4 n ++ (encode_string topic ++ rest)

two_skips : (d : Bytes) (o : ℕ) → o + 6 ≤ length d → skip d (skip d o 2) 4 ≡ o + 6
two_skips d o h = ground arith

be16-behind :
    (before w : Bytes) (n : ℕ)
    → n < 2 ^ 16
    → be16 {E = KafkaError} (before ++ (big_endian 2 n ++ w)) (length before) ≡ ok n
unfolding big_endian
be16-behind before w n h =
    let t = big_endian 2 n ++ w in
    ground (arith, length-append before t, get_or-append before t 0 0, get_or-append before t 1 0)

produce_topic_at :
    (d : Bytes) (o n : ℕ)
    → be16 {E = KafkaError} d o ≡ ok n
    → o + 2 + n + 6 ≤ length d
    → produce_topic d o ≡ topic_array d (o + 2 + n + 6)
unfolding produce_topic
produce_topic_at d o n h long = ground (arith, two_skips d (o + 2 + n))

length-preface :
    (txn : Bytes) (acks timeout : ℕ)
    → length (encode_preface (produce txn acks timeout)) ≡ 2 + length txn + 6
unfolding encode_preface
length-preface txn acks timeout =
    omega (arith, length-append txn (big_endian 2 acks ++ big_endian 4 timeout))

-- Behind a prefix and a preface, reading goes on at the topic array.
request_topic-preface :
    (before w : Bytes) (p : Preface)
    → IsPreface p
    → request_topic (api_key_of p) (before ++ (encode_preface p ++ w)) (length before)
      ≡ topic_array ((before ++ encode_preface p) ++ w) (length (before ++ encode_preface p))
unfolding request_topic encode_preface produce_topic
request_topic-preface before w metadata h = rw (append-nil before) refl
request_topic-preface before w create_topics h = rw (append-nil before) refl
request_topic-preface before w delete_topics h = rw (append-nil before) refl
request_topic-preface before w (produce txn acks timeout) h =
    let p = encode_preface (produce txn acks timeout) in
    let len = length-preface txn acks timeout in
    produce_topic_at (before ++ (p ++ w)) (length before) (length txn)
      (be16-behind before _ (length txn) (omega (arith, h)))
      (omega (arith, len, length-append before (p ++ w), length-append p w))
    ∙ ap₂ topic_array (sym (append_assoc before p w)) (omega (arith, len, length-append before p))

length-encode_header : (h : KafkaRequestHeader) → length (encode_header h) ≡ 10 + length h.client_id
unfolding encode_header
length-encode_header h = omega arith

-- Past the end, no topic is read.
topic_array_outside : (d : Bytes) (o : ℕ) → length d < o → topic_array d o ≡ ok []
unfolding topic_array
topic_array_outside d o h = ground arith

null_id_topic :
    (before rest : Bytes)
    → length rest < 65535
    → request_topic (pos 0) (before ++ (255 ∷ 255 ∷ rest)) (length before) ≡ ok []
unfolding request_topic produce_topic
null_id_topic before rest h =
    let d = before ++ (255 ∷ 255 ∷ rest) in
    let long = length-append before (255 ∷ 255 ∷ rest) in
    let id : be16 {E = KafkaError} d (length before) ≡ ok 65535 = ground (
      arith,
      long,
      get_or-append before (255 ∷ 255 ∷ rest) 0 0,
      get_or-append before (255 ∷ 255 ∷ rest) 1 0,
    ) in
    ground (arith, long, id, topic_array_outside d (length before + 2 + 65535))

-- A Produce request of the versions 3 to 8 with a transactional id, a Metadata request of the versions
-- 0 to 8, a CreateTopics request of the versions 0 to 4, or a DeleteTopics request of the versions 0 to
-- 3, its header in range, at least one and fewer than 2^31 topics, the first name and the
-- transactional id below 2^15 bytes, yields its header and the name of its first topic.
pub parse_kafka_request-encode :
    (h : KafkaRequestHeader) (p : Preface) (n : ℕ) (topic rest : Bytes)
    → IsHeader h
    → h.api_key ≡ api_key_of p
    → has_layout p h.api_version ≡ true
    → IsPreface p
    → 0 < n
    → n < 2 ^ 31
    → length topic < 2 ^ 15
    → parse_kafka_request (encode_header h ++ (encode_preface p ++ encode_topics n topic rest))
      ≡ ok (record { header = h; topic = topic })
unfolding parse_kafka_request request_body encode_topics
parse_kafka_request-encode h p n topic rest vh key versioned vp some bound short =
    let head = encode_header h in
    let body = encode_preface p ++ encode_topics n topic rest in
    let read = parse_kafka_request_header-encode_header h body vh in
    let found =
      ap (λ k. request_topic k (head ++ body) (length head)) key
      ∙ (request_topic-preface head (encode_topics n topic rest) p vp
          ∙ topic_array-encode_string (head ++ encode_preface p) n topic rest some
              (omega (arith, bound)) (omega (arith, short))) in
    rw
      (ge→ltb (length (head ++ body)) 10
        (omega (arith, length-encode_header h, length-append head body)))
      (rw read (rw found refl))

-- A producer, its header in range, that sends no transactional id, which is encoded by the length -1, loses its topic:
-- unless 65535 bytes or more follow it, the result is left without a topic.
pub null_transactional_id :
    (h : KafkaRequestHeader) (rest : Bytes)
    → IsHeader h
    → h.api_key ≡ pos 0
    → length rest < 65535
    → parse_kafka_request (encode_header h ++ (255 ∷ 255 ∷ rest))
      ≡ ok (record { header = h; topic = [] })
unfolding parse_kafka_request request_body
null_transactional_id h rest vh key short =
    let head = encode_header h in
    let body = 255 ∷ 255 ∷ rest in
    let read = parse_kafka_request_header-encode_header h body vh in
    let found =
      ap (λ k. request_topic k (head ++ body) (length head)) key ∙ null_id_topic head rest short in
    rw
      (ge→ltb (length (head ++ body)) 10
        (omega (arith, length-encode_header h, length-append head body)))
      (rw read (rw found refl))
