-- ===== src/Protocol/Mysql/Bounds.antt =====
-- mysql.go never indexes or slices past its input.
use ebpf_probe.Prelude.{
  ℕ, ◌+◌, ◌*◌, ◌^◌, ◌<◌, ◌≤◌, ◌≢◌, Outcome, ◌>>=◌, le16, get_or, ltb, leb, ◌==◌, if◌then◌else◌,
  Bool-cases, inl, inr, true, [], ◌∷◌, ◌≡◌, refl, ok, panic, Bytes, length, length-drop, drop,
  arith,
}
use ebpf_probe.Protocol.Mysql.{
  parse_mysql_packet, skip_to_nul, plugin_name, handshake_rest, parse_mysql_handshake,
  parse_mysql_query, MysqlError, le24, le64, with_size, len_enc_rest, read_len_enc_integer, ok_tail,
  parse_mysql_ok, parse_mysql_eof, parse_mysql_error,
}

-- The search for the terminator stops inside the input or at its end.
pub skip_to_nul_bounds :
    (d : Bytes) (o : ℕ) → (o ≤ skip_to_nul d o) × (skip_to_nul d o ≤ o + length d)
unfolding skip_to_nul
skip_to_nul_bounds [] o = omega arith
skip_to_nul_bounds (b ∷ d) o = ground (arith, skip_to_nul_bounds d (o + 1))

-- A result of the reader: some pair, with a size that does not go past the input.
abbrev pub Within : Bytes → Outcome MysqlError (ℕ × ℕ) → Type 0
Within d read = (r : ℕ × ℕ) × (read ≡ ok r) × (r.1 ≤ length d)

guarded-Within :
    (d : Bytes) (size : ℕ) (read : Outcome MysqlError ℕ)
    → (size ≤ length d → (n : ℕ) × (read ≡ ok n))
    → Within d (if ltb (length d) size then ok (0, 0) else (read >>= λ n. ok (with_size size n)))
guarded-Within d size read fits = elim (Bool-cases (ltb (length d) size)) [
  | inl short ↦ rw short ((0, 0), refl, omega arith)
  | inr long ↦
      let n = fits (ground (arith, long)) in
      rw (long, n.1) ((n.0, size), refl, ground (arith, long))
]

le16_within : (d : Bytes) → 3 ≤ length d → (n : ℕ) × (le16 {E = MysqlError} d 1 ≡ ok n)
le16_within d h = (get_or d 1 0 + get_or d 2 0 * 256, ground arith)

le24_within : (d : Bytes) → 4 ≤ length d → (n : ℕ) × (le24 d ≡ ok n)
le24_within d h = (get_or d 1 0 + get_or d 2 0 * 256 + get_or d 3 0 * 2 ^ 16, ground arith)

leb-true : (m n : ℕ) → m ≤ n → leb m n ≡ true
leb-true m n h = ground arith

le64-Within : (d : Bytes) → 9 ≤ length d → (n : ℕ) × (le64 d ≡ ok n)
le64-Within d h = rw (leb-true 9 (length d) h) (_, refl)

len_enc_rest-Within : (d : Bytes) (first : ℕ) → 0 < length d → Within d (len_enc_rest d first)
unfolding len_enc_rest
len_enc_rest-Within d first some = elim (Bool-cases (ltb first 0xfb)) [
  | inl small ↦ rw small ((first, 1), refl, some)
  | inr big ↦ rw big (elim (Bool-cases (first == 0xfb)) [
    | inl nil ↦ rw nil ((0, 1), refl, some)
    | inr other ↦ rw other (elim (Bool-cases (first == 0xfc)) [
      | inl two ↦ rw two (guarded-Within d 3 (le16 d 1) (le16_within d))
      | inr more ↦ rw more (elim (Bool-cases (first == 0xfd)) [
        | inl three ↦ rw three (guarded-Within d 4 (le24 d) (le24_within d))
        | inr eight ↦ rw eight (guarded-Within d 9 (le64 d) (le64-Within d))
      ])
    ])
  ])
]

read_len_enc_integer_cons :
    (b : ℕ) (d : Bytes) → read_len_enc_integer (b ∷ d) ≡ len_enc_rest (b ∷ d) b
unfolding read_len_enc_integer
read_len_enc_integer_cons b d = ground arith

-- A length-encoded integer is read without a panic, and never takes more bytes than there are.
pub read_len_enc_integer_bounds : (d : Bytes) → Within d (read_len_enc_integer d)
unfolding read_len_enc_integer
read_len_enc_integer_bounds [] = ((0, 0), refl, omega arith)
read_len_enc_integer_bounds (b ∷ d) =
    rw (read_len_enc_integer_cons b d) (len_enc_rest-Within (b ∷ d) b (omega arith))

plugin_name_safe : (d : Bytes) (o : ℕ) → plugin_name d o ≢ panic
unfolding plugin_name
plugin_name_safe d o = ground arith

handshake_rest_safe : (d : Bytes) (v : ℕ) (s : Bytes) (o : ℕ) → handshake_rest d v s o ≢ panic
unfolding handshake_rest
handshake_rest_safe d v s o = ground (arith, plugin_name_safe d (o + 20))

pub parse_mysql_handshake_safe : (d : Bytes) → parse_mysql_handshake d ≢ panic
unfolding parse_mysql_handshake
parse_mysql_handshake_safe d =
    let o = skip_to_nul (drop 1 d) 1 in
    ground (arith, skip_to_nul_bounds (drop 1 d) 1, length-drop 1 d, handshake_rest_safe d)

ok_tail_safe : (d : Bytes) (r i o : ℕ) → ok_tail d r i o ≢ panic
unfolding ok_tail
ok_tail_safe d r i o = ground arith

parse_mysql_ok_safe : (d : Bytes) → parse_mysql_ok d ≢ panic
unfolding parse_mysql_ok
parse_mysql_ok_safe d =
    let rows = read_len_enc_integer_bounds (drop 1 d) in
    let id = read_len_enc_integer_bounds (drop (1 + rows.0.1) d) in
    ground (
      arith,
      rows.1,
      rows.2,
      id.1,
      id.2,
      length-drop 1 d,
      length-drop (1 + rows.0.1) d,
      ok_tail_safe d rows.0.0 id.0.0 (1 + rows.0.1 + id.0.1),
    )

parse_mysql_packet_safe : (d : Bytes) → parse_mysql_packet d ≢ panic
unfolding parse_mysql_packet
parse_mysql_packet_safe d = ground arith

parse_mysql_error_safe : (d : Bytes) → parse_mysql_error d ≢ panic
unfolding parse_mysql_error
parse_mysql_error_safe d = ground arith

parse_mysql_query_safe : (d : Bytes) → parse_mysql_query d ≢ panic
unfolding parse_mysql_query
parse_mysql_query_safe d = ground arith

parse_mysql_eof_safe : (d : Bytes) → parse_mysql_eof d ≢ panic
unfolding parse_mysql_eof
parse_mysql_eof_safe d = ground arith

-- On every input, none of the six MySQL parsers indexes or slices out of range.
pub mysql_never_panics :
    (d : Bytes)
    → (parse_mysql_packet d ≢ panic)
      × (parse_mysql_handshake d ≢ panic)
      × (parse_mysql_query d ≢ panic)
      × (parse_mysql_ok d ≢ panic)
      × (parse_mysql_eof d ≢ panic)
      × (parse_mysql_error d ≢ panic)
mysql_never_panics d = (
  parse_mysql_packet_safe d,
  parse_mysql_handshake_safe d,
  parse_mysql_query_safe d,
  parse_mysql_ok_safe d,
  parse_mysql_eof_safe d,
  parse_mysql_error_safe d,
)
