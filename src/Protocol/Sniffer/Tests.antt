-- ===== src/Protocol/Sniffer/Tests.antt =====
-- The sniffer on small payloads.
use ebpf_probe.Prelude.{
  ◌≡◌, ◌↔◌, refl, none, [], ◌∷◌, ◌++◌, ok, panic, Bytes, length, get_or, codes, bytes_eq,
  has_prefix, to_upper,
}
use ebpf_probe.Protocol.Sniffer.{
  http, mysql, l7_none, PortOverride, is_http_port, detect_by_port, verify_http, verify_mysql,
  verify_redis, is_resp, verify_protocol, detect_by_payload, detect_verified, detect_overridden,
  detect_protocol,
}
use ebpf_probe.Protocol.Sniffer.Detection.{detect_protocol_panics_iff}

abbrev no_override : PortOverride
no_override port = none

abbrev four_zeros : Bytes
four_zeros = 0 ∷ 0 ∷ 0 ∷ 0 ∷ []

get_request : detect_protocol no_override (codes "GET / HTTP/1.1") 40000 80 ≡ ok http
unfolding detect_protocol detect_overridden detect_verified detect_by_port is_http_port
    verify_protocol verify_http has_prefix
get_request = refl

-- The inline PING is compared with three bytes of the payload and never found.
inline_ping : detect_protocol no_override (codes "PING" ++ (13 ∷ 10 ∷ [])) 40000 6379 ≡ ok l7_none
unfolding detect_protocol detect_overridden detect_verified detect_by_port is_http_port
    verify_protocol verify_redis is_resp bytes_eq to_upper detect_by_payload has_prefix
inline_ping = refl

detect_protocol_panics_iff_example :
    (detect_protocol no_override four_zeros 40000 3306 ≡ panic)
    ↔ (length four_zeros ≡ 4)
      × (get_or four_zeros 0 0 ≡ 0)
      × (detect_by_port 40000 3306 ≡ mysql)
      × (no_override 3306 ≡ none)
      × (no_override 40000 ≡ none)
detect_protocol_panics_iff_example = detect_protocol_panics_iff no_override four_zeros 40000 3306

four_zeros_panic : detect_protocol no_override four_zeros 40000 3306 ≡ panic
unfolding detect_protocol detect_overridden detect_verified detect_by_port is_http_port
    verify_protocol verify_mysql
four_zeros_panic = refl
