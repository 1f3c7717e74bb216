-- ===== src/Protocol/Kafka/Tests.antt =====
-- Kafka: runs on concrete bytes, and each theorem at a concrete input.
use ebpf_probe.Prelude.{◌≡◌, refl, true, [], ◌∷◌, ◌++◌, ok, codes, arith, signed}
use ebpf_probe.Prelude.Decimal.{pos, negsuc}
use ebpf_probe.Protocol.Kafka.{
  KafkaRequestHeader, parse_kafka_request_header, parse_kafka_request, is_kafka_packet,
  request_body, request_topic, topic_array, topic_name,
}
use ebpf_probe.Protocol.Kafka.Wire.{encode_header, IsHeader}
use ebpf_probe.Protocol.Kafka.Topics.{
  produce, encode_preface, encode_topics, parse_kafka_request-encode,
}

abbrev a_header : KafkaRequestHeader
a_header = record {
  api_key = pos 0;
  api_version = pos 3;
  correlation_id = negsuc 6;
  client_id = codes "go";
}

a_header-IsHeader : IsHeader a_header
a_header-IsHeader = record {
  key = omega arith;
  version = omega arith;
  correlation = omega arith;
  client = omega arith;
}

-- A metadata request for the topic "t".
metadata_request :
    parse_kafka_request
      (0 ∷ 3 ∷ 0 ∷ 1 ∷ 0 ∷ 0 ∷ 0 ∷ 9 ∷ 0 ∷ 1 ∷ b'c' ∷ 0 ∷ 0 ∷ 0 ∷ 1 ∷ 0 ∷ 1 ∷ b't' ∷ [])
    ≡ ok (record {
      header = record {
        api_key = pos 3;
        api_version = pos 1;
        correlation_id = pos 9;
        client_id = codes "c";
      };
      topic = codes "t";
    })
unfolding parse_kafka_request parse_kafka_request_header request_body request_topic topic_array
    topic_name signed
metadata_request = refl

is_packet : is_kafka_packet (0 ∷ 0 ∷ 1 ∷ 0 ∷ 0 ∷ 3 ∷ 0 ∷ 1 ∷ 0 ∷ 0 ∷ []) ≡ true
unfolding is_kafka_packet
is_packet = refl

parse_kafka_request-encode_example :
    parse_kafka_request (
      encode_header a_header
      ++ (encode_preface (produce (codes "tx") 1 500)
          ++ encode_topics 2 (codes "orders") (codes "x")))
    ≡ ok (record { header = a_header; topic = codes "orders" })
parse_kafka_request-encode_example =
    parse_kafka_request-encode a_header (produce (codes "tx") 1 500) 2 (codes "orders") (codes "x")
      a_header-IsHeader refl refl (omega arith) (omega arith) (omega arith) (omega arith)
