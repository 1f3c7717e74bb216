-- ===== src/Protocol/Tls/Wire.antt =====
-- The ClientHello of TLS as a client writes it, and the extensions read back from it.
use ebpf_probe.Prelude.{
  ℕ, zero, suc, ◌+◌, ◌-◌, ◌^◌, ◌≤◌, ◌<◌, ◌≡◌, refl, ap, ◌∙◌, append-nil, All, List, [], ◌∷◌, ◌++◌,
  Bytes, length, take, drop, big_endian, arith, word16, drop-drop, length-append, take-append,
  drop-append, ge→ltb, le→leb, ok, ◌>>=◌,
}
use ebpf_probe.Protocol.Tls.{
  TlsExtension, extension_loop, parse_tls_extensions, parse_server_name_extension, alpn_loop,
  parse_alpn_extension,
}

unfoldable pub encode_extension : TlsExtension → Bytes
unfolding big_endian
encode_extension e = big_endian 2 e.kind ++ (big_endian 2 e.len ++ e.body)

unfoldable pub encode_extensions : List TlsExtension → Bytes
unfolding encode_extension
encode_extensions [] = []
encode_extensions (e ∷ exts) = encode_extension e ++ encode_extensions exts

pub record IsExtension (e : TlsExtension) : Type 0 where
  pub kind : e.kind < 2 ^ 16
  pub small : e.len < 2 ^ 16
  pub exact : e.len ≡ length e.body

-- One round of the loop over the bytes of an extension.
extension_step :
    (f k n : ℕ) (body rest : Bytes)
    → k < 2 ^ 16
    → n < 2 ^ 16
    → n ≡ length body
    → extension_loop (suc f) (big_endian 2 k ++ (big_endian 2 n ++ (body ++ rest)))
      ≡ (extension_loop f rest >>= λ exts. ok (record { kind = k; len = n; body = body } ∷ exts))
unfolding extension_loop big_endian
extension_step f k n body rest hk hn exact =
    let bytes = big_endian 2 k ++ (big_endian 2 n ++ (body ++ rest)) in
    let taken : take (4 + n - 4) (drop 4 bytes) ≡ body =
      ap (λ (m : ℕ). take m (body ++ rest)) (omega (arith, exact)) ∙ take-append body rest in
    let dropped : drop (4 + n) bytes ≡ rest =
      drop-drop 4 n bytes ∙ (ap (λ (m : ℕ). drop m (body ++ rest)) exact ∙ drop-append body rest) in
    let long = length-append body rest in
    let fits : 4 + n ≤ length bytes = omega (arith, exact, long) in
    rw (word16 k hk, word16 n hn)
      (rw
        (
          ge→ltb (length bytes) 4 (omega arith),
          le→leb 2 (length bytes) (omega arith),
          le→leb 4 (length bytes) (omega arith),
        )
        (rw
          (
            ge→ltb (length bytes) (4 + n) fits,
            le→leb 4 (4 + n) (omega arith),
            le→leb (4 + n) (length bytes) fits,
          )
          (rw (dropped, taken) refl)))

extension_loop-encode :
    (f : ℕ) (exts : List TlsExtension)
    → All IsExtension exts
    → length (encode_extensions exts) ≤ f
    → extension_loop f (encode_extensions exts) ≡ ok exts
unfolding encode_extensions
extension_loop-encode zero [] h fits = unfold extension_loop in refl
extension_loop-encode zero (e ∷ exts) h fits = absurd (omega arith)
extension_loop-encode (suc f) [] h fits = unfold extension_loop in refl
extension_loop-encode (suc f) (e ∷ exts) h fits =
    let rest = encode_extensions exts in
    extension_step f e.kind e.len e.body rest h.0.kind h.0.small h.0.exact
    ∙ ap (λ more. more >>= λ l. ok (e ∷ l))
        (extension_loop-encode f exts h.1 (omega (arith, fits, length-append e.body rest)))

pub parse_tls_extensions-encode :
    (exts : List TlsExtension)
    → All IsExtension exts
    → parse_tls_extensions (encode_extensions exts) ≡ ok exts
unfolding parse_tls_extensions
parse_tls_extensions-encode exts h =
    extension_loop-encode (length (encode_extensions exts)) exts h (omega arith)

-- The server name extension, with one host name.
unfoldable pub encode_server_name : Bytes → Bytes
unfolding big_endian
encode_server_name name =
    big_endian 2 (length name + 3) ++ (0 ∷ (big_endian 2 (length name) ++ name))

pub parse_server_name_extension-encode :
    (name : Bytes)
    → length name < 2 ^ 16
    → parse_server_name_extension (encode_server_name name) ≡ ok name
unfolding parse_server_name_extension encode_server_name
parse_server_name_extension-encode name h = ground (arith, take-append name [], append-nil name)

-- The ALPN extension.
unfoldable pub encode_protocols : List Bytes → Bytes
encode_protocols [] = []
encode_protocols (p ∷ protocols) = length p ∷ (p ++ encode_protocols protocols)

unfoldable pub encode_alpn : List Bytes → Bytes
unfolding big_endian encode_protocols
encode_alpn protocols =
    big_endian 2 (length (encode_protocols protocols)) ++ encode_protocols protocols

alpn_loop-encode :
    (f : ℕ) (protocols : List Bytes)
    → length (encode_protocols protocols) ≤ f
    → alpn_loop f (encode_protocols protocols) ≡ ok protocols
unfolding alpn_loop encode_protocols
alpn_loop-encode zero [] fits = refl
alpn_loop-encode zero (p ∷ protocols) fits = absurd (omega arith)
alpn_loop-encode (suc f) [] fits = refl
alpn_loop-encode (suc f) (p ∷ protocols) fits =
    let rest = encode_protocols protocols in
    let ih = alpn_loop-encode f protocols (omega (arith, fits, length-append p rest)) in
    ground (arith, ih, length-append p rest, take-append p rest, drop-append p rest)

pub parse_alpn_extension-encode :
    (protocols : List Bytes) → parse_alpn_extension (encode_alpn protocols) ≡ ok protocols
unfolding parse_alpn_extension encode_alpn
parse_alpn_extension-encode protocols =
    ground (arith, alpn_loop-encode (2 + length (encode_protocols protocols)) protocols)
