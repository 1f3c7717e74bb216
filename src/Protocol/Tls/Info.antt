-- ===== src/Protocol/Tls/Info.antt =====
-- https.go: what GetTLSInfo and CheckHTTPOverTLS read from captured bytes. Their errors are the
-- empty answer; a panic of the parsers is theirs, too.
use ebpf_probe.Prelude.{
  ℕ, Bool, true, false, [], ◌∷◌, Outcome, ok, err, panic, ◌>>=◌, Bytes, any, length, ltb, ◌==◌,
  if◌then◌else◌, codes, has_prefix,
}
use ebpf_probe.Protocol.Tls.{
  TlsError, TlsRecord, TlsClientHello, parse_tls_record, parse_tls_client_hello,
}
use ebpf_probe.Protocol.Tls.Names.{get_tls_handshake_type_name, is_tls_record}

-- The handshake name, the version and the server name.
abbrev pub TlsInfo : Type 0
TlsInfo = Bytes × ℕ × Bytes

-- `if err == nil && hello.ServerName != ""`: an error and an empty name are the same here.
unfoldable pub server_name_of : Outcome TlsError TlsClientHello → Outcome ⊥ Bytes
server_name_of (ok hello) = ok hello.server_name
server_name_of (err e) = ok []
server_name_of panic = panic

unfoldable pub record_info : TlsRecord → Bytes → Outcome ⊥ TlsInfo
unfolding get_tls_handshake_type_name
record_info r [] = ok ([], r.version, [])
record_info r (t ∷ rest) =
    if r.content_type == 22
    then (if t == 1
        then (if ltb 0 (length rest)
            then (server_name_of (parse_tls_client_hello rest) >>= λ name.
                ok (get_tls_handshake_type_name t, r.version, name))
            else ok (get_tls_handshake_type_name t, r.version, []))
        else ok (get_tls_handshake_type_name t, r.version, []))
    else ok ([], r.version, [])

unfoldable pub info_of : Outcome TlsError TlsRecord → Outcome ⊥ TlsInfo
unfolding record_info
info_of (ok r) = record_info r r.body
info_of (err e) = ok ([], 0, [])
info_of panic = panic

unfoldable pub get_tls_info : Bytes → Outcome ⊥ TlsInfo
unfolding is_tls_record info_of
get_tls_info d = if is_tls_record d then info_of (parse_tls_record d) else ok ([], 0, [])

unfoldable pub speaks_http : Outcome TlsError TlsClientHello → Outcome ⊥ Bool
unfolding has_prefix
speaks_http (ok hello) = ok (any (λ proto. has_prefix proto (codes "http")) hello.alpn_protocols)
speaks_http (err e) = ok false
speaks_http panic = panic

unfoldable pub record_speaks_http : TlsRecord → Bytes → Outcome ⊥ Bool
unfolding speaks_http
record_speaks_http r [] = ok (r.content_type == 23)
record_speaks_http r (t ∷ rest) =
    if r.content_type == 23
    then ok true
    else if r.content_type == 22
    then (if t == 1 then speaks_http (parse_tls_client_hello rest) else ok false)
    else ok false

unfoldable pub http_over : Outcome TlsError TlsRecord → Outcome ⊥ Bool
unfolding record_speaks_http
http_over (ok r) = record_speaks_http r r.body
http_over (err e) = ok false
http_over panic = panic

unfoldable pub check_http_over_tls : Bytes → Outcome ⊥ Bool
unfolding is_tls_record http_over
check_http_over_tls d = if is_tls_record d then http_over (parse_tls_record d) else ok false
