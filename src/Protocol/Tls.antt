-- ===== src/Protocol/Tls.antt =====
-- pkg/protocol/https.go: TLS records, the ClientHello with its extensions, and what is read from
-- them. Version, content type and extension type are their numbers.
pub mod Names
pub mod Info
pub mod Safety
pub mod Wire
pub mod RoundTrip
mod Tests
use ebpf_probe.Prelude.{
  ℕ, zero, suc, ◌+◌, ◌*◌, ◌%◌, ◌^◌, Bool, true, false, ◌&&◌, ◌||◌, List, [], ◌∷◌, Outcome, ok, err,
  panic, ◌>>=◌, ◌>>◌, fail_if, Bytes, index, slice, be16, get_or, length, take, drop, ltb, leb,
  ◌==◌, if◌then◌else◌,
}

-- The error messages.
pub data TlsError : Type 0 where
  short_record : TlsError
  incomplete_record : TlsError
  short_client_hello : TlsError
  incomplete_session_id : TlsError
  incomplete_cipher_suites : TlsError
  incomplete_cipher_suites_data : TlsError
  incomplete_compression_methods : TlsError
  incomplete_compression_methods_data : TlsError
  incomplete_extensions_length : TlsError
  incomplete_extensions_data : TlsError

pub record TlsRecord : Type 0 where
  pub content_type : ℕ
  pub version : ℕ
  pub len : ℕ
  pub body : Bytes

pub record TlsExtension : Type 0 where
  pub kind : ℕ
  pub len : ℕ
  pub body : Bytes

pub record TlsClientHello : Type 0 where
  pub version : ℕ
  pub random : Bytes
  pub session_id : Bytes
  pub cipher_suites : List ℕ
  pub compression_methods : Bytes
  pub extensions : List TlsExtension
  pub server_name : Bytes
  pub alpn_protocols : List Bytes

-- `data[5 : 5+record.Length]` adds in 16 bits.
unfoldable pub parse_tls_record : Bytes → Outcome TlsError TlsRecord
parse_tls_record d = do
  fail_if (ltb (length d) 5) short_record
  kind ← index d 0
  v ← be16 d 1
  n ← be16 d 3
  fail_if (ltb (length d) (5 + n)) incomplete_record
  bytes ← slice d 5 ((5 + n) % 2 ^ 16)
  ok (record { content_type = kind; version = v; len = n; body = bytes })

-- The loop over the cipher suites, given how many bytes are left. The slice made for them has room
-- for half as many numbers, so that the number of a last single byte is out of its range.
unfoldable pub cipher_loop : Bytes → ℕ → ℕ → Outcome TlsError (List ℕ)
cipher_loop d offset zero = ok []
cipher_loop d offset (suc zero) = panic
cipher_loop d offset (suc (suc n)) = do
  suite ← be16 d offset
  suites ← cipher_loop d (offset + 2) n
  ok (suite ∷ suites)

-- The cipher suites at `offset`, and the offset behind them.
unfoldable pub cipher_part : Bytes → ℕ → Outcome TlsError (List ℕ × ℕ)
cipher_part d offset = do
  fail_if (ltb (length d) (offset + 2)) incomplete_cipher_suites
  n ← be16 d offset
  fail_if (ltb (length d) (offset + 2 + n)) incomplete_cipher_suites_data
  suites ← cipher_loop d (offset + 2) n
  ok (suites, offset + 2 + n)

unfoldable pub compression_part : Bytes → ℕ → Outcome TlsError (Bytes × ℕ)
compression_part d offset = do
  fail_if (ltb (length d) (offset + 1)) incomplete_compression_methods
  n ← index d offset
  fail_if (ltb (length d) (offset + 1 + n)) incomplete_compression_methods_data
  methods ← slice d (offset + 1) (offset + 1 + n)
  ok (methods, offset + 1 + n)

-- parseTLSExtensions over `data[offset:]`, with a unit of fuel for each round. What does not fit
-- ends the loop.
unfoldable pub extension_loop : ℕ → Bytes → Outcome TlsError (List TlsExtension)
extension_loop zero d = ok []
extension_loop (suc f) d = if ltb (length d) 4 then ok [] else (do
  kind ← be16 d 0
  n ← be16 d 2
  (if ltb (length d) (4 + n) then ok [] else (do
    body ← slice d 4 (4 + n)
    more ← extension_loop f (drop (4 + n) d)
    ok (record { kind = kind; len = n; body = body } ∷ more))))

unfoldable pub parse_tls_extensions : Bytes → Outcome TlsError (List TlsExtension)
unfolding extension_loop
parse_tls_extensions d = extension_loop (length d) d

unfoldable pub extensions_part : Bytes → ℕ → Outcome TlsError (List TlsExtension)
extensions_part d offset =
    if ltb offset (length d)
    then (do
      fail_if (ltb (length d) (offset + 2)) incomplete_extensions_length
      n ← be16 d offset
      fail_if (ltb (length d) (offset + 2 + n)) incomplete_extensions_data
      bytes ← slice d (offset + 2) (offset + 2 + n)
      parse_tls_extensions bytes)
    else ok []

unfoldable pub parse_server_name_extension : Bytes → Outcome TlsError Bytes
parse_server_name_extension d = if ltb (length d) 5 then ok [] else (do
  size ← be16 d 0
  kind ← index d 2
  (if kind == 0
      then (do n ← be16 d 3; (if ltb (length d) (5 + n) then ok [] else slice d 5 (5 + n)))
      else ok []))

-- The loop over the protocol names, over `data[offset:]`, with a unit of fuel for each round.
unfoldable pub alpn_loop : ℕ → Bytes → Outcome TlsError (List Bytes)
alpn_loop zero d = ok []
alpn_loop (suc f) d =
    if ltb 0 (length d)
    then (do
      n ← index d 0
      (if ltb (length d) (1 + n) then ok [] else (do
        name ← slice d 1 (1 + n)
        more ← alpn_loop f (drop (1 + n) d)
        ok (name ∷ more))))
    else ok []

unfoldable pub parse_alpn_extension : Bytes → Outcome TlsError (List Bytes)
unfolding alpn_loop
parse_alpn_extension d =
    if ltb (length d) 2 then ok [] else (do size ← be16 d 0; alpn_loop (length d) (drop 2 d))

-- The loop that takes the server name and the protocols from the extensions; the last one counts.
unfoldable pub server_name_from : Bytes → List TlsExtension → Outcome TlsError Bytes
server_name_from name [] = ok name
server_name_from name (e ∷ exts) = do
  found ← if e.kind == 0x0000 then parse_server_name_extension e.body else ok name
  server_name_from found exts

unfoldable pub alpn_from : List Bytes → List TlsExtension → Outcome TlsError (List Bytes)
alpn_from names [] = ok names
alpn_from names (e ∷ exts) = do
  found ← if e.kind == 0x0010 then parse_alpn_extension e.body else ok names
  alpn_from found exts

-- What follows the session id.
unfoldable pub hello_rest : Bytes → ℕ → Bytes → Bytes → ℕ → Outcome TlsError TlsClientHello
hello_rest d v random session offset = do
  suites ← cipher_part d offset
  methods ← compression_part d suites.1
  exts ← extensions_part d methods.1
  name ← server_name_from [] exts
  protocols ← alpn_from [] exts
  ok (record {
    version = v;
    random = random;
    session_id = session;
    cipher_suites = suites.0;
    compression_methods = methods.0;
    extensions = exts;
    server_name = name;
    alpn_protocols = protocols;
  })

unfoldable pub parse_tls_client_hello : Bytes → Outcome TlsError TlsClientHello
parse_tls_client_hello d = do
  fail_if (ltb (length d) 43) short_client_hello
  v ← be16 d 0
  random ← slice d 2 34
  n ← index d 34
  fail_if (ltb (length d) (35 + n)) incomplete_session_id
  session ← slice d 35 (35 + n)
  hello_rest d v random session (35 + n)
