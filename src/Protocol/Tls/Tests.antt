-- ===== src/Protocol/Tls/Tests.antt =====
-- TLS: runs on concrete bytes, and each theorem at a concrete input.
use ebpf_probe.Prelude.{
  ℕ, zero, suc, ◌+◌, ◌%◌, ◌≤◌, ◌≡◌, ◌↔◌, refl, [], ◌∷◌, ◌++◌, ok, panic, Bytes, length, codes,
  arith, big_endian, get_or,
}
use ebpf_probe.Protocol.Tls.{
  TlsClientHello, parse_tls_record, parse_tls_client_hello, cipher_loop, cipher_part,
  compression_part, extensions_part, hello_rest, parse_tls_extensions, server_name_from, alpn_from,
}
use ebpf_probe.Protocol.Tls.Info.{get_tls_info, server_name_of}
use ebpf_probe.Protocol.Tls.Safety.{number_at, parse_tls_client_hello_panics_iff}
use ebpf_probe.Protocol.Tls.Wire.{encode_extensions, encode_server_name, encode_alpn}
use ebpf_probe.Protocol.Tls.RoundTrip.{
  server_name_extension, alpn_extension, carried, behind, IsClientHello, encode_client_hello,
  encode_rest, encode_words, parse_tls_client_hello-encode,
}

abbrev zeros : ℕ → Bytes
zeros zero = []
zeros (suc n) = 0 ∷ zeros n

abbrev a_hello : TlsClientHello
a_hello = record {
  version = 0x0303;
  random = zeros 32;
  session_id = [];
  cipher_suites = 0x1301 ∷ [];
  compression_methods = 0 ∷ [];
  extensions =
      server_name_extension (codes "ab.org")
      ∷ record { kind = 0x0023; len = 0; body = [] }
      ∷ alpn_extension (codes "h2" ∷ codes "http/1.1" ∷ [])
      ∷ [];
  server_name = codes "ab.org";
  alpn_protocols = codes "h2" ∷ codes "http/1.1" ∷ [];
}

a_hello-IsClientHello : IsClientHello a_hello
unfolding encode_extensions encode_server_name encode_alpn
a_hello-IsClientHello = record {
  version = omega arith;
  random = refl;
  session = omega arith;
  some_suite = omega arith;
  few_suites = omega arith;
  suites = omega arith;
  some_method = omega arith;
  few_methods = omega arith;
  extensions = (
    record { kind = omega arith; small = omega arith; exact = refl },
    (
      record { kind = omega arith; small = omega arith; exact = refl },
      (record { kind = omega arith; small = omega arith; exact = refl }, tt),
    ),
  );
  small = omega arith;
  name = carried (codes "ab.org") _ (omega arith) (ground arith, (ground arith, tt));
  protocols =
      behind _ _ _ (ground arith)
        (behind _ _ _ (ground arith) (carried (codes "h2" ∷ codes "http/1.1" ∷ []) [] tt tt));
}

parse_tls_client_hello-encode_example :
    parse_tls_client_hello (encode_client_hello a_hello) ≡ ok a_hello
parse_tls_client_hello-encode_example = parse_tls_client_hello-encode a_hello a_hello-IsClientHello

abbrev short_record : Bytes
short_record = 22 ∷ 3 ∷ 1 ∷ 255 ∷ 255 ∷ []

-- A hello of 43 bytes that announces one byte of cipher suites.
abbrev odd_hello : Bytes
odd_hello = 3 ∷ 3 ∷ (zeros 32 ++ (0 ∷ 0 ∷ 1 ∷ zeros 6))

parse_tls_client_hello_panics_iff_example :
    (parse_tls_client_hello odd_hello ≡ panic)
    ↔ (43 ≤ length odd_hello)
      × (35 + get_or odd_hello 34 0 + 2 + number_at odd_hello (35 + get_or odd_hello 34 0)
          ≤ length odd_hello)
      × (number_at odd_hello (35 + get_or odd_hello 34 0) % 2 ≡ 1)
parse_tls_client_hello_panics_iff_example = parse_tls_client_hello_panics_iff odd_hello

odd_hello_panic : parse_tls_client_hello odd_hello ≡ panic
unfolding parse_tls_client_hello hello_rest cipher_part cipher_loop
odd_hello_panic = refl

-- A record with a ClientHello for "a.b": its message has three bytes of length behind the type,
-- which GetTLSInfo takes for the beginning of the hello, and so the name is not found.
abbrev message : Bytes
unfolding encode_client_hello encode_rest encode_words encode_extensions encode_server_name
    big_endian
message = encode_client_hello (record a_hello {
  extensions = record { kind = 0; len = 8; body = encode_server_name (codes "a.b") } ∷ [];
})

a_name_lost :
    get_tls_info (22 ∷ 3 ∷ 1 ∷ 0 ∷ (4 + length message) ∷ 1 ∷ 0 ∷ 0 ∷ length message ∷ message)
    ≡ ok (codes "ClientHello", 0x0301, [])
unfolding get_tls_info parse_tls_record parse_tls_client_hello hello_rest cipher_part cipher_loop
    compression_part extensions_part parse_tls_extensions server_name_from alpn_from
    encode_client_hello encode_rest encode_words encode_extensions encode_server_name big_endian
    server_name_of
a_name_lost = refl
