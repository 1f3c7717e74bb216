-- ===== src/Protocol/Dubbo/Tests.antt =====
-- Dubbo: runs on concrete bytes, and each theorem at a concrete input.
use ebpf_probe.Prelude.{
  ◌/◌, ◌%◌, ◌≡◌, ◌≢◌, refl, false, List, [], ◌∷◌, ◌++◌, map, ok, err, panic, Bytes, bit, length,
  codes, arith, signed,
}
use ebpf_probe.Prelude.Decimal.{pos, negsuc}
use ebpf_probe.Protocol.Dubbo.{
  DubboProtocolHeader, dubbo_magic, parse_dubbo_protocol_header, parse_dubbo_request,
  parse_dubbo_response, is_invalid_length, body_length_of, request_id_of,
}
use ebpf_probe.Protocol.Dubbo.Header.{
  encode_header, parse_dubbo_protocol_header-encode, dubbo_never_panics,
}
use ebpf_probe.Protocol.Dubbo.Hessian.{
  read_byte, read_int32, read_int64, read_string, string_body, short_string,
}
use ebpf_probe.Protocol.Dubbo.Hessian.Bounds.{StaysIn, hessian-StaysIn}
use ebpf_probe.Protocol.Dubbo.Hessian.RoundTrip.{
  Value, byte, int64, text, kind_of, encode_values, read_values, read_values-encode,
}

-- The head of a response of the Dubbo protocol: no request flag, Hessian2, status 20.
abbrev response_head : Bytes
response_head = 0xda ∷ 0xbb ∷ 2 ∷ 20 ∷ 0 ∷ 0 ∷ 0 ∷ 0 ∷ 0 ∷ 0 ∷ 0 ∷ 7 ∷ 0 ∷ 0 ∷ 0 ∷ 1 ∷ []

abbrev response_header : DubboProtocolHeader
response_header = record {
  magic = 0xdabb;
  flags = 2;
  status = 20;
  serialization = 2;
  message_type = 0;
  is_two_way = false;
  is_event = false;
  body_length = pos 1;
  request_id = pos 7;
}

response_head_parsed : parse_dubbo_protocol_header response_head ≡ ok response_header
unfolding parse_dubbo_protocol_header is_invalid_length body_length_of request_id_of
response_head_parsed = refl

parse_dubbo_protocol_header-encode_example :
    parse_dubbo_protocol_header (encode_header 0x22 20 (negsuc 4) 300 ++ codes "body")
    ≡ ok (record {
      magic = dubbo_magic;
      flags = 0x22;
      status = 20;
      serialization = 0x22 % 32;
      message_type = 0x22 / 32 % 2;
      is_two_way = bit 0x22 5;
      is_event = bit 0x22 4;
      body_length = pos 300;
      request_id = negsuc 4;
    })
parse_dubbo_protocol_header-encode_example =
    parse_dubbo_protocol_header-encode 0x22 20 300 (negsuc 4) (codes "body") (omega arith)
      (omega arith)

dubbo_never_panics_example :
    (parse_dubbo_request response_head ≢ panic) × (parse_dubbo_response response_head ≢ panic)
dubbo_never_panics_example = dubbo_never_panics response_head

-- A string that is cut short: its length is consumed all the same.
cut_short : read_string (0 ∷ 0 ∷ 0 ∷ 5 ∷ b'a' ∷ []) 0 ≡ (err short_string, 4)
unfolding read_string read_int32 string_body signed
cut_short = refl

hessian-StaysIn_example :
    StaysIn response_head 3 (read_byte response_head 3)
    × StaysIn response_head 3 (read_int32 response_head 3)
    × StaysIn response_head 3 (read_int64 response_head 3)
    × StaysIn response_head 3 (read_string response_head 3)
hessian-StaysIn_example = hessian-StaysIn response_head 3 (omega arith)

abbrev some_values : List Value
some_values = text (codes "sayHello") ∷ int64 (negsuc 8) ∷ byte 200 ∷ []

read_values-encode_example :
    read_values (map kind_of some_values) (encode_values some_values ++ codes "more") 0
    ≡ (ok some_values, length (encode_values some_values))
read_values-encode_example = read_values-encode some_values (codes "more") (omega arith)
