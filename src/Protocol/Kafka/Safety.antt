-- ===== src/Protocol/Kafka/Safety.antt =====
-- kafka.go never indexes or slices past its input.
use ebpf_probe.Prelude.{ℕ, ◌≢◌, panic, Bytes, arith, >>=-ne-panic}
use ebpf_probe.Prelude.Decimal.{ℤ, pos, negsuc}
use ebpf_probe.Protocol.Kafka.{
  parse_kafka_request_header, parse_kafka_response_header, topic_name, topic_array, produce_topic,
  fetch_topic, request_topic, request_body, KafkaRequestHeader, parse_kafka_request,
  parse_kafka_response,
}

parse_kafka_request_header_safe : (d : Bytes) → parse_kafka_request_header d ≢ panic
unfolding parse_kafka_request_header
parse_kafka_request_header_safe d = ground arith

topic_array_safe : (d : Bytes) (o : ℕ) → topic_array d o ≢ panic
unfolding topic_array topic_name
topic_array_safe d o = ground arith

produce_topic_safe : (d : Bytes) (o : ℕ) → produce_topic d o ≢ panic
unfolding produce_topic
produce_topic_safe d o = ground (arith, topic_array_safe d)

fetch_topic_safe : (d : Bytes) (o : ℕ) → fetch_topic d o ≢ panic
unfolding fetch_topic
fetch_topic_safe d o = topic_array_safe d _

request_topic_safe : (k : ℤ) (d : Bytes) (o : ℕ) → request_topic k d o ≢ panic
unfolding request_topic
request_topic_safe (pos k) d o =
    ground (arith, topic_array_safe d o, produce_topic_safe d o, fetch_topic_safe d o)
request_topic_safe (negsuc k) d o = ground arith

request_body_safe : (d : Bytes) (read : KafkaRequestHeader × ℕ) → request_body d read ≢ panic
unfolding request_body
request_body_safe d read = ground (arith, request_topic_safe (read.0).api_key d read.1)

parse_kafka_request_safe : (d : Bytes) → parse_kafka_request d ≢ panic
unfolding parse_kafka_request
parse_kafka_request_safe d =
    let body =
      >>=-ne-panic (parse_kafka_request_header d) (request_body d)
        (parse_kafka_request_header_safe d) (λ read _. request_body_safe d read) in
    ground (arith, body)

parse_kafka_response_safe : (d : Bytes) → parse_kafka_response d ≢ panic
unfolding parse_kafka_response parse_kafka_response_header
parse_kafka_response_safe d = ground arith

-- On every input, neither Kafka parser indexes or slices out of range, for any API key.
pub kafka_never_panics :
    (d : Bytes) → (parse_kafka_request d ≢ panic) × (parse_kafka_response d ≢ panic)
kafka_never_panics d = (parse_kafka_request_safe d, parse_kafka_response_safe d)
