-- ===== src/Protocol/Redis/Tests.antt =====
-- Redis: runs on concrete bytes, and each theorem at a concrete input.
use ebpf_probe.Prelude.{
  ◌≡◌, ◌≢◌, refl, true, List, [], ◌∷◌, ◌++◌, ok, err, panic, Bytes, codes, arith, index_crlf,
}
use ebpf_probe.Prelude.Decimal.{format_int, atoi}
use ebpf_probe.Protocol.Redis.{
  count_items, Resp, simple, bulk, array, bulk_nil, nil, cons, out_of_fuel, unknown_type,
  is_simple_type, calculate_resp_size, parse_redis_packet,
}
use ebpf_probe.Protocol.Redis.Wire.{encode, IsResp}
use ebpf_probe.Protocol.Redis.RoundTrip.{parse_redis_packet-encode}
use ebpf_probe.Protocol.Redis.Total.{parse_redis_packet_terminates}
use ebpf_probe.Protocol.Redis.Faults.{negative_line, negative_length_panics}
use ebpf_probe.Protocol.Redis.Commands.{RedisCommand, get_redis_key}

abbrev reply : Resp
reply = array (cons (bulk (codes "a")) (cons (simple b'+' (codes "OK")) (cons (array nil) nil)))

-- A nil element is taken for four bytes and has five: the rest of the array is refused.
nil_element :
    parse_redis_packet (encode (array (cons bulk_nil (cons (bulk (codes "a")) nil))))
    ≡ err unknown_type
unfolding parse_redis_packet encode index_crlf atoi format_int calculate_resp_size
nil_element = refl

colon_is_simple : is_simple_type b'+' ≡ true
unfolding is_simple_type
colon_is_simple = refl

reply-IsResp : IsResp reply
reply-IsResp = (tt, tt, (tt, (colon_is_simple, omega arith), (tt, tt, tt)))

parse_redis_packet-encode_example : parse_redis_packet (encode reply ++ 1 ∷ []) ≡ ok reply
parse_redis_packet-encode_example =
    parse_redis_packet-encode reply (1 ∷ []) reply-IsResp
      (unfold encode format_int count_items in omega arith)

parse_redis_packet_terminates_example : parse_redis_packet (codes "*9") ≢ err out_of_fuel
parse_redis_packet_terminates_example = parse_redis_packet_terminates (codes "*9")

negative_length_panics_example :
    (parse_redis_packet (b'$' ∷ negative_line 0 []) ≡ panic)
    × (parse_redis_packet (b'*' ∷ negative_line 0 []) ≡ panic)
negative_length_panics_example = negative_length_panics 0 [] (omega arith)

abbrev get_k : List Bytes
get_k = codes "get" ∷ codes "k" ∷ []

abbrev set_k : RedisCommand
set_k = record { name = codes "SET"; args = codes "k" ∷ codes "v" ∷ []; raw = [] }

set_k_key : get_redis_key set_k ≡ codes "k"
unfolding get_redis_key
set_k_key = refl

set_k_has_key : get_redis_key set_k ≢ []
set_k_has_key h = cc (set_k_key)
