-- ===== src/Protocol/Tls/Safety.antt =====
-- https.go: which inputs crash the record parser and the ClientHello parser.
use ebpf_probe.Prelude.{
  ℕ, zero, suc, ◌+◌, ◌*◌, ◌%◌, ◌≤◌, ◌≡◌, ◌≢◌, ◌↔◌, panic, Bytes, AreBytes, get_or, get_or-IsByte,
  length, arith, >>=-ne-panic, ok-ne-panic, take, drop, ◌-◌, Bool-cases, inl, inr, List, [], ◌∷◌,
  ◌==◌,
}
use ebpf_probe.Protocol.Tls.{
  parse_tls_record, cipher_loop, cipher_part, compression_part, extensions_part, hello_rest,
  parse_tls_client_hello, TlsExtension, extension_loop, parse_tls_extensions,
  parse_server_name_extension, alpn_loop, parse_alpn_extension, server_name_from, alpn_from,
}

-- The 16-bit number at `i`.
abbrev pub number_at : Bytes → ℕ → ℕ
number_at d i = get_or d i 0 * 256 + get_or d (i + 1) 0

-- The record parser crashes exactly on a complete record whose length is 65531 or more, where
-- `5+record.Length` wraps around in 16 bits.
pub parse_tls_record_panics_iff :
    (d : Bytes)
    → AreBytes d
    → (parse_tls_record d ≡ panic) ↔ (65531 ≤ number_at d 3) × (5 + number_at d 3 ≤ length d)
unfolding parse_tls_record
parse_tls_record_panics_iff d h = ground (arith, get_or-IsByte d 3 h, get_or-IsByte d 4 h)

cipher_loop_odd :
    (d : Bytes) (offset n : ℕ) → offset + n ≤ length d → n % 2 ≡ 1 → cipher_loop d offset n ≡ panic
unfolding cipher_loop
cipher_loop_odd d offset zero fits odd = absurd (omega arith)
cipher_loop_odd d offset (suc zero) fits odd = ground arith
cipher_loop_odd d offset (suc (suc n)) fits odd =
    ground (arith, cipher_loop_odd d (offset + 2) n (omega arith) (omega arith))

cipher_loop_even :
    (d : Bytes) (offset n : ℕ) → offset + n ≤ length d → n % 2 ≡ 0 → cipher_loop d offset n ≢ panic
unfolding cipher_loop
cipher_loop_even d offset zero fits even = cc
cipher_loop_even d offset (suc zero) fits even = absurd (omega arith)
cipher_loop_even d offset (suc (suc n)) fits even =
    ground (arith, cipher_loop_even d (offset + 2) n (omega arith) (omega arith))

cipher_part_panics_iff :
    (d : Bytes) (offset : ℕ)
    → (cipher_part d offset ≡ panic)
      ↔ (offset + 2 + number_at d offset ≤ length d) × (number_at d offset % 2 ≡ 1)
unfolding cipher_part
cipher_part_panics_iff d offset =
    let n = number_at d offset in
    ground (arith, cipher_loop_odd d (offset + 2) n, cipher_loop_even d (offset + 2) n)

compression_part_safe : (d : Bytes) (offset : ℕ) → compression_part d offset ≢ panic
unfolding compression_part
compression_part_safe d offset = ground arith

extension_loop_safe : (f : ℕ) (d : Bytes) → extension_loop f d ≢ panic
unfolding extension_loop
extension_loop_safe zero d = cc
extension_loop_safe (suc f) d =
    let n = number_at d 2 in ground (arith, extension_loop_safe f (drop (4 + n) d))

parse_server_name_extension_safe : (d : Bytes) → parse_server_name_extension d ≢ panic
unfolding parse_server_name_extension
parse_server_name_extension_safe d = ground arith

alpn_loop_safe : (f : ℕ) (d : Bytes) → alpn_loop f d ≢ panic
unfolding alpn_loop
alpn_loop_safe zero d = cc
alpn_loop_safe (suc f) d = ground (arith, alpn_loop_safe f (drop (1 + get_or d 0 0) d))

parse_alpn_extension_safe : (d : Bytes) → parse_alpn_extension d ≢ panic
unfolding parse_alpn_extension
parse_alpn_extension_safe d = ground (arith, alpn_loop_safe (length d) (drop 2 d))

server_name_from_safe :
    (name : Bytes) (exts : List TlsExtension) → server_name_from name exts ≢ panic
unfolding server_name_from
server_name_from_safe name [] = cc
server_name_from_safe name (e ∷ exts) = elim (Bool-cases (e.kind == 0x0000)) [
  | inl h ↦ rw h (
      >>=-ne-panic _ _ (parse_server_name_extension_safe e.body)
        (λ found _. server_name_from_safe found exts))
  | inr h ↦ rw h (server_name_from_safe name exts)
]

alpn_from_safe : (names : List Bytes) (exts : List TlsExtension) → alpn_from names exts ≢ panic
unfolding alpn_from
alpn_from_safe names [] = cc
alpn_from_safe names (e ∷ exts) = elim (Bool-cases (e.kind == 0x0010)) [
  | inl h ↦
      rw h
        (>>=-ne-panic _ _ (parse_alpn_extension_safe e.body) (λ found _. alpn_from_safe found exts))
  | inr h ↦ rw h (alpn_from_safe names exts)
]

extensions_part_safe : (d : Bytes) (offset : ℕ) → extensions_part d offset ≢ panic
unfolding extensions_part parse_tls_extensions
extensions_part_safe d offset =
    let n = number_at d offset in
    let bytes = take (offset + 2 + n - (offset + 2)) (drop (offset + 2) d) in
    ground (arith, extension_loop_safe (length bytes) bytes)

hello_rest_safe :
    (d : Bytes) (v : ℕ) (random session : Bytes) (offset : ℕ)
    → cipher_part d offset ≢ panic
    → hello_rest d v random session offset ≢ panic
unfolding hello_rest
hello_rest_safe d v random session offset h = >>=-ne-panic _ _ h (λ suites _.
    >>=-ne-panic _ _ (compression_part_safe d suites.1) (λ methods _.
      >>=-ne-panic _ _ (extensions_part_safe d methods.1) (λ exts _.
        >>=-ne-panic _ _ (server_name_from_safe [] exts)
          (λ name _. >>=-ne-panic _ _ (alpn_from_safe [] exts) (λ protocols _. ok-ne-panic _)))))

hello_rest_panics :
    (d : Bytes) (v : ℕ) (random session : Bytes) (offset : ℕ)
    → cipher_part d offset ≡ panic
    → hello_rest d v random session offset ≡ panic
unfolding hello_rest
hello_rest_panics d v random session offset h = rw h

-- The ClientHello parser crashes exactly on a hello of 43 bytes or more that holds its session id
-- and its cipher suites, where the length of the cipher suites is odd.
pub parse_tls_client_hello_panics_iff :
    (d : Bytes)
    → (parse_tls_client_hello d ≡ panic)
      ↔ (43 ≤ length d)
        × (35 + get_or d 34 0 + 2 + number_at d (35 + get_or d 34 0) ≤ length d)
        × (number_at d (35 + get_or d 34 0) % 2 ≡ 1)
unfolding parse_tls_client_hello
parse_tls_client_hello_panics_iff d =
    let offset = 35 + get_or d 34 0 in
    let v = get_or d 0 0 * 256 + get_or d (0 + 1) 0 in
    let random = take (34 - 2) (drop 2 d) in
    let session = take (35 + get_or d 34 0 - 35) (drop 35 d) in
    ground (
      arith,
      cipher_part_panics_iff d offset,
      hello_rest_safe d v random session offset,
      hello_rest_panics d v random session offset,
    )
