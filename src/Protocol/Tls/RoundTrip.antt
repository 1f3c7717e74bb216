-- ===== src/Protocol/Tls/RoundTrip.antt =====
-- A ClientHello is read back from its bytes.
use ebpf_probe.Prelude.{
  ℕ, zero, suc, ◌+◌, ◌*◌, ◌^◌, ◌≤◌, ◌<◌, ◌≡◌, ◌≢◌, refl, ◌==◌, false, All, List, [], ◌∷◌, ◌++◌, ok,
  slice, Bytes, length, big_endian, length-big_endian, arith, length-append, ge→ltb, lt→ltb,
}
use ebpf_probe.Prelude.Cursor.{
  At, At-start, At-append, At-cons, At-big_endian, index-At, be16-At, slice-At,
}
use ebpf_probe.Protocol.Tls.{
  TlsError, TlsExtension, TlsClientHello, cipher_loop, cipher_part, compression_part,
  extensions_part, server_name_from, alpn_from, hello_rest, parse_tls_client_hello,
}
use ebpf_probe.Protocol.Tls.Wire.{
  encode_extensions, IsExtension, encode_server_name, encode_alpn,
  parse_server_name_extension-encode, parse_alpn_extension-encode, parse_tls_extensions-encode,
}

unfoldable pub encode_words : List ℕ → Bytes
unfolding big_endian
encode_words [] = []
encode_words (w ∷ words) = big_endian 2 w ++ encode_words words

abbrev pub IsWord : ℕ → Type 0
IsWord w = w < 2 ^ 16

length-encode_words : (words : List ℕ) → length (encode_words words) ≡ 2 * length words
unfolding encode_words
length-encode_words [] = omega arith
length-encode_words (w ∷ words) = omega (arith, length-encode_words words)

cipher_loop-encode_words :
    (d : Bytes) (o n : ℕ) (words : List ℕ) (s : Bytes)
    → n ≡ 2 * length words
    → All IsWord words
    → At d o (encode_words words ++ s)
    → cipher_loop d o n ≡ ok words
unfolding cipher_loop
cipher_loop-encode_words d o zero [] s e small h = refl
cipher_loop-encode_words d o zero (w ∷ words) s e small h = absurd (omega arith)
cipher_loop-encode_words d o (suc n) [] s e small h = absurd (omega arith)
cipher_loop-encode_words d o (suc zero) (w ∷ words) s e small h = absurd (omega arith)
cipher_loop-encode_words d o (suc (suc n)) (w ∷ words) s e small h =
    let here : At d o (big_endian 2 w ++ (encode_words words ++ s)) =
      unfold encode_words big_endian in h in
    let ih =
      cipher_loop-encode_words d (o + 2) n words s (omega arith) small.1
        (At-big_endian d o 2 w (encode_words words ++ s) here) in
    rw (be16-At {E = TlsError} d o w (encode_words words ++ s) small.0 here) (rw ih refl)

cipher_part-At :
    (d : Bytes) (o : ℕ) (words : List ℕ) (s : Bytes)
    → All IsWord words
    → length words < 2 ^ 15
    → At d o (big_endian 2 (2 * length words) ++ (encode_words words ++ s))
    → cipher_part d o ≡ ok (words, o + 2 + 2 * length words)
unfolding cipher_part
cipher_part-At d o words s small few h =
    let n = 2 * length words in
    let next = At-big_endian d o 2 n (encode_words words ++ s) h in
    let long = next.1 in
    let size = length-append (encode_words words) s in
    let exact = length-encode_words words in
    rw (ge→ltb (length d) (o + 2) (omega (arith, long))) (
      rw (be16-At {E = TlsError} d o n (encode_words words ++ s) (omega arith) h) (
        rw (ge→ltb (length d) (o + 2 + n) (omega (arith, long, size, exact)))
          (rw (cipher_loop-encode_words d (o + 2) n words s refl small next) refl)))

compression_part-At :
    (d : Bytes) (o : ℕ) (m s : Bytes)
    → At d o (length m ∷ (m ++ s))
    → compression_part d o ≡ ok (m, o + 1 + length m)
unfolding compression_part
compression_part-At d o m s h =
    let next = At-cons d o (length m) (m ++ s) h in
    let long = next.1 in
    let size = length-append m s in
    rw (ge→ltb (length d) (o + 1) (omega (arith, long))) (
      rw (index-At {E = TlsError} d o (length m) (m ++ s) h) (
        rw (ge→ltb (length d) (o + 1 + length m) (omega (arith, long, size)))
          (rw (slice-At {E = TlsError} d (o + 1) m s next) refl)))

extensions_part-At :
    (d : Bytes) (o : ℕ) (exts : List TlsExtension)
    → All IsExtension exts
    → length (encode_extensions exts) < 2 ^ 16
    → At d o (big_endian 2 (length (encode_extensions exts)) ++ (encode_extensions exts ++ []))
    → extensions_part d o ≡ ok exts
unfolding extensions_part
extensions_part-At d o exts valid small h =
    let x = encode_extensions exts in
    let next = At-big_endian d o 2 (length x) (x ++ []) h in
    let long = next.1 in
    let size = length-append x [] in
    rw (lt→ltb o (length d) (omega (arith, long))) (
      rw (ge→ltb (length d) (o + 2) (omega (arith, long))) (
        rw (be16-At {E = TlsError} d o (length x) (x ++ []) small h) (
          rw (ge→ltb (length d) (o + 2 + length x) (omega (arith, long, size))) (
            rw (slice-At {E = TlsError} d (o + 2) x [] next)
              (rw (parse_tls_extensions-encode exts valid) refl)))))

-- What a client writes behind the session id.
unfoldable pub encode_rest : TlsClientHello → Bytes
encode_rest h =
    big_endian 2 (2 * length h.cipher_suites)
    ++ (encode_words h.cipher_suites
        ++ (length h.compression_methods
            ∷ (h.compression_methods
                ++ (big_endian 2 (length (encode_extensions h.extensions))
                    ++ (encode_extensions h.extensions ++ [])))))

-- The body of a ClientHello message, with an extension block.
unfoldable pub encode_client_hello : TlsClientHello → Bytes
encode_client_hello h =
    big_endian 2 h.version ++ (h.random ++ (length h.session_id ∷ (h.session_id ++ encode_rest h)))

-- The extension of a client that names a server, and that of one that offers protocols.
abbrev pub server_name_extension : Bytes → TlsExtension
server_name_extension name = record {
  kind = 0x0000;
  len = length (encode_server_name name);
  body = encode_server_name name;
}

abbrev pub alpn_extension : List Bytes → TlsExtension
alpn_extension protocols = record {
  kind = 0x0010;
  len = length (encode_alpn protocols);
  body = encode_alpn protocols;
}

-- Extensions of which one at most is of a kind, and the value that it carries, as `encode` writes
-- it; `empty` stands for no extension of the kind.
pub data Carries {A : Type 0} (kind : ℕ) (empty : A) (encode : A → TlsExtension)
    (IsFit : A → Type 0) : List TlsExtension → A → Type 0 where
  absent :
      (exts : List TlsExtension)
      → All (λ e. e.kind ≢ kind) exts
      → Carries kind empty encode IsFit exts empty
  carried :
      (a : A) (exts : List TlsExtension)
      → IsFit a
      → All (λ e. e.kind ≢ kind) exts
      → Carries kind empty encode IsFit (encode a ∷ exts) a
  behind :
      (e : TlsExtension) (exts : List TlsExtension) (a : A)
      → e.kind ≢ kind
      → Carries kind empty encode IsFit exts a
      → Carries kind empty encode IsFit (e ∷ exts) a

abbrev pub CarriesName : List TlsExtension → Bytes → Type 0
CarriesName = Carries 0x0000 [] server_name_extension (λ name. length name < 2 ^ 16)

abbrev pub CarriesProtocols : List TlsExtension → List Bytes → Type 0
CarriesProtocols = Carries 0x0010 [] alpn_extension (λ protocols. Unit {0})

eq_false : (a b : ℕ) → a ≢ b → (a == b) ≡ false
eq_false a b h = ground arith

server_name_absent :
    (name : Bytes) (exts : List TlsExtension)
    → All (λ e. e.kind ≢ 0x0000) exts
    → server_name_from name exts ≡ ok name
unfolding server_name_from
server_name_absent name [] h = refl
server_name_absent name (e ∷ exts) h =
    rw (eq_false e.kind 0x0000 h.0) (server_name_absent name exts h.1)

alpn_absent :
    (names : List Bytes) (exts : List TlsExtension)
    → All (λ e. e.kind ≢ 0x0010) exts
    → alpn_from names exts ≡ ok names
unfolding alpn_from
alpn_absent names [] h = refl
alpn_absent names (e ∷ exts) h = rw (eq_false e.kind 0x0010 h.0) (alpn_absent names exts h.1)

server_name_from-CarriesName :
    (exts : List TlsExtension) (name : Bytes)
    → CarriesName exts name
    → server_name_from [] exts ≡ ok name
unfolding server_name_from
server_name_from-CarriesName _ _ (absent exts others) = server_name_absent [] exts others
server_name_from-CarriesName _ _ (carried name exts fits others) =
    rw (parse_server_name_extension-encode name fits) (server_name_absent name exts others)
server_name_from-CarriesName _ _ (behind e exts name other c) =
    rw (eq_false e.kind 0x0000 other) (server_name_from-CarriesName exts name c)

alpn_from-CarriesProtocols :
    (exts : List TlsExtension) (protocols : List Bytes)
    → CarriesProtocols exts protocols
    → alpn_from [] exts ≡ ok protocols
unfolding alpn_from
alpn_from-CarriesProtocols _ _ (absent exts others) = alpn_absent [] exts others
alpn_from-CarriesProtocols _ _ (carried protocols exts fits others) =
    rw (parse_alpn_extension-encode protocols) (alpn_absent protocols exts others)
alpn_from-CarriesProtocols _ _ (behind e exts protocols other c) =
    rw (eq_false e.kind 0x0010 other) (alpn_from-CarriesProtocols exts protocols c)

-- A hello of the protocol: fields in range, a suite and a compression method at least; the server
-- name and the protocols are those that its extensions carry as a client writes them.
pub record IsClientHello (h : TlsClientHello) : Type 0 where
  pub version : h.version < 2 ^ 16
  pub random : length h.random ≡ 32
  pub session : length h.session_id < 256
  pub some_suite : 0 < length h.cipher_suites
  pub few_suites : length h.cipher_suites < 2 ^ 15
  pub suites : All IsWord h.cipher_suites
  pub some_method : 0 < length h.compression_methods
  pub few_methods : length h.compression_methods < 256
  pub extensions : All IsExtension h.extensions
  pub small : length (encode_extensions h.extensions) < 2 ^ 16
  pub name : CarriesName h.extensions h.server_name
  pub protocols : CarriesProtocols h.extensions h.alpn_protocols

hello_rest-encode :
    (h : TlsClientHello) (d : Bytes) (o : ℕ)
    → IsClientHello h
    → At d o (encode_rest h)
    → hello_rest d h.version h.random h.session_id o ≡ ok h
unfolding hello_rest encode_rest
hello_rest-encode h d o v here =
    let n = 2 * length h.cipher_suites in
    let methods = h.compression_methods in
    let exts = encode_extensions h.extensions in
    let block = big_endian 2 (length exts) ++ (exts ++ []) in
    let rest = length methods ∷ (methods ++ block) in
    let words = encode_words h.cipher_suites in
    let at_words = At-big_endian d o 2 n (words ++ rest) here in
    let at_methods : At d (o + 2 + n) rest =
      rw (length-encode_words h.cipher_suites) at (At-append d (o + 2) words rest at_words) in
    let at_exts =
      At-append d (o + 2 + n + 1) methods block
        (At-cons d (o + 2 + n) (length methods) (methods ++ block) at_methods) in
    rw (cipher_part-At d o h.cipher_suites rest v.suites v.few_suites here) (
      rw (compression_part-At d (o + 2 + n) methods block at_methods) (
        rw
          (extensions_part-At d (o + 2 + n + 1 + length methods) h.extensions v.extensions v.small
            at_exts)
          (rw (server_name_from-CarriesName h.extensions h.server_name v.name)
            (rw (alpn_from-CarriesProtocols h.extensions h.alpn_protocols v.protocols) refl))))

length-encode_rest : (h : TlsClientHello) → IsClientHello h → 8 ≤ length (encode_rest h)
unfolding encode_rest
length-encode_rest h v =
    let methods = h.compression_methods in
    let exts = encode_extensions h.extensions ++ [] in
    let block = big_endian 2 (length (encode_extensions h.extensions)) ++ exts in
    let rest = length methods ∷ (methods ++ block) in
    let n = 2 * length h.cipher_suites in
    omega (
      arith,
      v.some_suite,
      v.some_method,
      length-append (big_endian 2 n) (encode_words h.cipher_suites ++ rest),
      length-append (encode_words h.cipher_suites) rest,
      length-append methods block,
      length-append (big_endian 2 (length (encode_extensions h.extensions))) exts,
      length-big_endian 2 n,
      length-big_endian 2 (length (encode_extensions h.extensions)),
      length-encode_words h.cipher_suites,
    )

-- A ClientHello of the protocol that has an extension block is read back from the body of its
-- message, with the server name and the protocols that its extensions carry as a client writes them:
-- one extension of each of the two kinds at most, the name below 2^16 bytes.
pub parse_tls_client_hello-encode :
    (h : TlsClientHello) → IsClientHello h → parse_tls_client_hello (encode_client_hello h) ≡ ok h
unfolding parse_tls_client_hello encode_client_hello
parse_tls_client_hello-encode h v =
    let d = encode_client_hello h in
    let tail = h.session_id ++ encode_rest h in
    let at_random =
      At-big_endian d 0 2 h.version (h.random ++ (length h.session_id ∷ tail)) (At-start d) in
    let at_id : At d 34 (length h.session_id ∷ tail) =
      rw v.random at (At-append d 2 h.random (length h.session_id ∷ tail) at_random) in
    let at_session = At-cons d 34 (length h.session_id) tail at_id in
    let at_rest = At-append d 35 h.session_id (encode_rest h) at_session in
    let random : slice {E = TlsError} d 2 34 ≡ ok h.random =
      rw v.random at
        (slice-At {E = TlsError} d 2 h.random (length h.session_id ∷ tail) at_random) in
    let size = at_rest.1 in
    rw (ge→ltb (length d) 43 (omega (arith, size, length-encode_rest h v))) (
      rw (be16-At {E = TlsError} d 0 h.version _ v.version (At-start d)) (
        rw random (
          rw (index-At {E = TlsError} d 34 (length h.session_id) tail at_id) (
            rw (ge→ltb (length d) (35 + length h.session_id) (omega (arith, size))) (
              rw (slice-At {E = TlsError} d 35 h.session_id (encode_rest h) at_session)
                (hello_rest-encode h d (35 + length h.session_id) v at_rest))))))
