-- ===== src/Protocol/Mysql/RoundTrip.antt =====
-- mysql.go against the wire format of the MySQL protocol, written out as encoders.
use mathlib.Core.Path.{ap₂}
use ebpf_probe.Prelude.{
  ℕ, zero, suc, ◌+◌, ◌/◌, ◌%◌, ◌^◌, ◌≤◌, ◌<◌, ◌≡◌, sym, ap, ◌∙◌, append_assoc, [], ◌∷◌, ◌++◌,
  Outcome, ok, err, Bytes, length, little_endian, length-little_endian, length-append, length-take,
  get_or-append, take-append, drop-append, drop-one_more, take, arith, ltb, if◌then◌else◌,
}
use ebpf_probe.Protocol.Mysql.{
  MysqlError, MysqlPacket, OkPacket, incomplete_packet, parse_mysql_packet, len_enc_rest,
  read_len_enc_integer, ok_tail, parse_mysql_ok, short_header,
}

-- A packet: three bytes of length, the sequence number, the payload.
unfoldable pub encode_packet : MysqlPacket → Bytes
unfolding little_endian
encode_packet p = little_endian 3 (length p.payload) ++ (p.sequence_id ∷ p.payload)

-- The shortest length-encoded form of an integer.
unfoldable pub encode_len_enc : ℕ → Bytes
unfolding little_endian
encode_len_enc n =
    if ltb n 251
    then n ∷ []
    else if ltb n (2 ^ 16)
    then 0xfc ∷ little_endian 2 n
    else if ltb n (2 ^ 24)
    then 0xfd ∷ little_endian 3 n
    else 0xfe ∷ little_endian 8 n

-- A packet whose payload fits in 24 bits is read back, whatever bytes follow it.
pub parse_mysql_packet-encode_packet :
    (p : MysqlPacket) (rest : Bytes)
    → length p.payload < 2 ^ 24
    → parse_mysql_packet (encode_packet p ++ rest) ≡ ok p
unfolding parse_mysql_packet encode_packet
parse_mysql_packet-encode_packet p rest h =
    ground (arith, length-append p.payload rest, take-append p.payload rest)

-- An integer below 2^64 is read back from its length-encoded form, with exactly its bytes consumed.
pub read_len_enc_integer-encode_len_enc :
    (n : ℕ) (rest : Bytes)
    → n < 2 ^ 64
    → read_len_enc_integer (encode_len_enc n ++ rest) ≡ ok (n, length (encode_len_enc n))
unfolding read_len_enc_integer len_enc_rest encode_len_enc
read_len_enc_integer-encode_len_enc n rest h = ground arith

-- A packet of which only a strict prefix has arrived is refused, and never misread.
pub parse_mysql_packet-take :
    (p : MysqlPacket) (n : ℕ)
    → length p.payload < 2 ^ 24
    → n < 4 + length p.payload
    → parse_mysql_packet (take n (encode_packet p))
      ≡ (if ltb n 4 then err short_header else err incomplete_packet)
unfolding parse_mysql_packet encode_packet
parse_mysql_packet-take p zero h lt = ground arith
parse_mysql_packet-take p (suc zero) h lt = ground arith
parse_mysql_packet-take p (suc (suc zero)) h lt = ground arith
parse_mysql_packet-take p (suc (suc (suc zero))) h lt = ground arith
parse_mysql_packet-take p (suc (suc (suc (suc n)))) h lt = ground (arith, length-take n p.payload)

-- An OK packet as the server writes it.
unfoldable pub encode_ok : OkPacket → Bytes
encode_ok p =
    0
    ∷ (encode_len_enc p.affected_rows
        ++ (encode_len_enc p.last_insert_id
            ++ (little_endian 2 p.status_flags ++ little_endian 2 p.warnings)))

encode_len_enc_pos : (n : ℕ) → 0 < length (encode_len_enc n)
unfolding encode_len_enc
encode_len_enc_pos n = ground arith

-- The two flag words behind any prefix.
ok_tail-little_endian :
    (before : Bytes) (r i s w : ℕ)
    → s < 2 ^ 16
    → w < 2 ^ 16
    → ok_tail (before ++ (little_endian 2 s ++ little_endian 2 w)) r i (length before)
      ≡ ok (record { affected_rows = r; last_insert_id = i; status_flags = s; warnings = w })
unfolding ok_tail little_endian
ok_tail-little_endian before r i s w hs hw =
    let words = s % 256 ∷ s / 256 % 256 ∷ w % 256 ∷ w / 256 % 256 ∷ [] in
    ground (
      arith,
      length-append before words,
      get_or-append before words 0 0,
      get_or-append before words 1 0,
      get_or-append before words 2 0,
      get_or-append before words 3 0,
    )

-- The parser over an OK packet in its parts.
parse_mysql_ok_parts :
    (e1 e2 words : Bytes) (n1 n2 : ℕ) {r : Outcome MysqlError OkPacket}
    → read_len_enc_integer (e1 ++ (e2 ++ words)) ≡ ok (n1, length e1)
    → read_len_enc_integer (e2 ++ words) ≡ ok (n2, length e2)
    → 6 ≤ length (e1 ++ (e2 ++ words))
    → ok_tail (0 ∷ (e1 ++ (e2 ++ words))) n1 n2 (1 + length e1 + length e2) ≡ r
    → parse_mysql_ok (0 ∷ (e1 ++ (e2 ++ words))) ≡ r
unfolding parse_mysql_ok
parse_mysql_ok_parts e1 e2 words n1 n2 h1 h2 long tail = ground (
  arith,
  length-append e1 (e2 ++ words),
  drop-append e1 (e2 ++ words),
  drop-one_more (length e1) (0 ∷ (e1 ++ (e2 ++ words))),
)

ok_tail_behind :
    (e1 e2 words : Bytes) (r i : ℕ)
    → ok_tail (0 ∷ (e1 ++ (e2 ++ words))) r i (1 + length e1 + length e2)
      ≡ ok_tail ((0 ∷ (e1 ++ e2)) ++ words) r i (length (0 ∷ (e1 ++ e2)))
ok_tail_behind e1 e2 words r i =
    ap₂ (λ (d : Bytes) (o : ℕ). ok_tail d r i o)
      (ap (λ (d : Bytes). 0 ∷ d) (sym (append_assoc e1 e2 words)))
      (omega (arith, length-append e1 e2))

-- An OK packet with integers below 2^64 and 16-bit flags and warnings is read back.
pub parse_mysql_ok-encode_ok :
    (p : OkPacket)
    → p.affected_rows < 2 ^ 64
    → p.last_insert_id < 2 ^ 64
    → p.status_flags < 2 ^ 16
    → p.warnings < 2 ^ 16
    → parse_mysql_ok (encode_ok p) ≡ ok p
unfolding encode_ok
parse_mysql_ok-encode_ok p ha hi hs hw =
    let e1 = encode_len_enc p.affected_rows in
    let e2 = encode_len_enc p.last_insert_id in
    let words = little_endian 2 p.status_flags ++ little_endian 2 p.warnings in
    parse_mysql_ok_parts e1 e2 words p.affected_rows p.last_insert_id
      (read_len_enc_integer-encode_len_enc p.affected_rows (e2 ++ words) ha)
      (read_len_enc_integer-encode_len_enc p.last_insert_id words hi)
      (omega (
        arith,
        length-append e1 (e2 ++ words),
        length-append e2 words,
        length-append (little_endian 2 p.status_flags) (little_endian 2 p.warnings),
        encode_len_enc_pos p.affected_rows,
        encode_len_enc_pos p.last_insert_id,
        length-little_endian 2 p.status_flags,
        length-little_endian 2 p.warnings,
      ))
      (ok_tail_behind e1 e2 words p.affected_rows p.last_insert_id
        ∙ ok_tail-little_endian (0 ∷ (e1 ++ e2)) p.affected_rows p.last_insert_id p.status_flags
            p.warnings hs hw)
