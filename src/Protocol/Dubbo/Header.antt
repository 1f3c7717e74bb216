-- ===== src/Protocol/Dubbo/Header.antt =====
-- dubbo.go: the header against its bytes, and what its message type can be.
use ebpf_probe.Prelude.{
  ℕ, ◌+◌, ◌*◌, ◌/◌, ◌%◌, ◌^◌, ◌≤◌, ◌≡◌, ◌≢◌, ◌↔◌, refl, true, ◌∷◌, ◌++◌, ok, panic, Bytes, bit,
  length, big_endian, arith, if◌then◌else◌, unsigned, IsInRange, signed-unsigned, unsigned_bound,
  ge→ltb, lt→ltb, get_or,
}
use ebpf_probe.Prelude.Decimal.{ℤ, pos}
use ebpf_probe.Prelude.Cursor.{
  At, At-start, At-cons, At-big_endian, index-At, be16-At, be32-At, be64-At,
}
use ebpf_probe.Protocol.Dubbo.{
  DubboError, DubboProtocolHeader, dubbo_magic, dubbo_max_body_length, parse_dubbo_protocol_header,
  parse_dubbo_request, parse_dubbo_response, is_dubbo_packet, is_invalid_length, body_length_of,
  request_id_of,
}

-- A header in the layout that the parser reads: magic, flags, status, request id, body length.
unfoldable pub encode_header : ℕ → ℕ → ℤ → ℕ → Bytes
unfolding big_endian
encode_header flags status id n =
    big_endian 2 dubbo_magic
    ++ (flags ∷ status ∷ (big_endian 8 (unsigned (2 ^ 63) id) ++ big_endian 4 n))

body_length_small : (n : ℕ) → n ≤ dubbo_max_body_length → body_length_of n ≡ pos n
unfolding body_length_of
body_length_small n h = rw (lt→ltb n (2 ^ 31) (omega (arith, h))) refl

request_id_back : (id : ℤ) → IsInRange (2 ^ 63) id → request_id_of (unsigned (2 ^ 63) id) ≡ id
unfolding request_id_of
request_id_back id h = signed-unsigned (2 ^ 63) id h

-- The fields of a header are read back from its bytes, whatever follows, for a request id of an
-- int64 and a body length up to 8 MB: the status as it stands, and of the flags the low five bits
-- as the serialization, bit 5 as the message type and again as two-way, and bit 4 as event.
pub parse_dubbo_protocol_header-encode :
    (flags status n : ℕ) (id : ℤ) (rest : Bytes)
    → IsInRange (2 ^ 63) id
    → n ≤ dubbo_max_body_length
    → parse_dubbo_protocol_header (encode_header flags status id n ++ rest)
      ≡ ok (record {
        magic = dubbo_magic;
        flags = flags;
        status = status;
        serialization = flags % 32;
        message_type = flags / 32 % 2;
        is_two_way = bit flags 5;
        is_event = bit flags 4;
        body_length = pos n;
        request_id = id;
      })
unfolding parse_dubbo_protocol_header encode_header is_invalid_length
parse_dubbo_protocol_header-encode flags status n id rest hid hn =
    let d = encode_header flags status id n ++ rest in
    let u = unsigned (2 ^ 63) id in
    let lens = big_endian 4 n ++ rest in
    let ids = big_endian 8 u ++ lens in
    let at_ids : At d 4 ids = (unfold big_endian in refl, unfold big_endian in omega arith) in
    let at_lens = At-big_endian d 4 8 u lens at_ids in
    let at_start : At d 0 (big_endian 2 dubbo_magic ++ (flags ∷ status ∷ ids)) = At-start d in
    let at_flags = At-big_endian d 0 2 dubbo_magic (flags ∷ status ∷ ids) at_start in
    let at_status = At-cons d 2 flags (status ∷ ids) at_flags in
    let size = at_lens.1 in
    rw (ge→ltb (length d) 16 (unfold big_endian in omega arith)) (
      rw (be16-At {E = DubboError} d 0 dubbo_magic (flags ∷ status ∷ ids) (omega arith) at_start) (
        rw (index-At {E = DubboError} d 2 flags (status ∷ ids) at_flags) (
          rw (index-At {E = DubboError} d 3 status ids at_status) (
            rw
              (be64-At {E = DubboError} d 4 u lens (omega (arith, unsigned_bound (2 ^ 63) id hid))
                at_ids)
              (rw (be32-At {E = DubboError} d 12 n rest (omega (arith, hn)) at_lens) (
                rw (body_length_small n hn, request_id_back id hid)
                  (rw (ge→ltb dubbo_max_body_length n hn) refl)))))))

-- The header that stands in the first sixteen bytes.
abbrev header_of : Bytes → DubboProtocolHeader
header_of d =
    let flags = get_or d 2 0 in
    record {
      magic = dubbo_magic;
      flags = flags;
      status = get_or d 3 0;
      serialization = flags % 32;
      message_type = flags / 32 % 2;
      is_two_way = bit flags 5;
      is_event = bit flags 4;
      body_length =
          body_length_of
            (get_or d 12 0 * 2 ^ 24 + get_or d 13 0 * 2 ^ 16 + get_or d 14 0 * 256 + get_or d 15 0);
      request_id = request_id_of (
          get_or d 4 0 * 2 ^ 56
          + get_or d 5 0 * 2 ^ 48
          + get_or d 6 0 * 2 ^ 40
          + get_or d 7 0 * 2 ^ 32
          + get_or d 8 0 * 2 ^ 24
          + get_or d 9 0 * 2 ^ 16
          + get_or d 10 0 * 256
          + get_or d 11 0);
    }

-- The packet test accepts exactly the inputs whose header parses.
pub is_dubbo_packet_iff :
    (d : Bytes)
    → (is_dubbo_packet d ≡ true)
      ↔ (h : DubboProtocolHeader) × (parse_dubbo_protocol_header d ≡ ok h)
unfolding is_dubbo_packet parse_dubbo_protocol_header
is_dubbo_packet_iff d = (λ e. (header_of d, ground (arith, e)), λ p. ground (arith, p.1))

-- A header that parses is never that of a response: its message type is 1 if the call is two-way,
-- and 0 otherwise.
pub never_response :
    (d : Bytes) (h : DubboProtocolHeader)
    → parse_dubbo_protocol_header d ≡ ok h
    → (h.message_type ≡ (if h.is_two_way then 1 else 0)) × (h.message_type ≢ 2)
unfolding parse_dubbo_protocol_header
never_response d h e = ground arith

-- On every input, neither the request parser nor the response parser indexes or slices out of range.
pub dubbo_never_panics :
    (d : Bytes) → (parse_dubbo_request d ≢ panic) × (parse_dubbo_response d ≢ panic)
unfolding parse_dubbo_request parse_dubbo_response parse_dubbo_protocol_header
dubbo_never_panics d = (ground arith, ground arith)
