-- ===== src/Protocol/Mysql.antt =====
-- pkg/protocol/mysql.go: MySQL packets. A Go string is its bytes; a parser of `data []byte` returns
-- an `Outcome`, with a constructor of `MysqlError` for each error text.
pub mod Bounds
pub mod RoundTrip
pub mod Command
mod Tests
use ebpf_probe.Prelude.{
  ℕ, zero, suc, ◌+◌, ◌-◌, ◌*◌, ◌^◌, ◌≡◌, refl, Bool, true, false, ◌&&◌, List, [], ◌∷◌, Outcome, ok,
  err, panic, ◌>>=◌, ◌>>◌, fail_if, Bytes, index, slice, slice_from, le16, le32, length, get_or,
  take, drop, ltb, leb, ◌==◌, if◌then◌else◌, codes, has_prefix, to_upper, trim_space,
}

abbrev pub header_size : ℕ
header_size = 4

abbrev pub max_packet_size : ℕ
max_packet_size = 2 ^ 24 - 1

pub data MysqlError : Type 0 where
  short_header incomplete_packet : MysqlError
  short_handshake incomplete_connection_id incomplete_auth_data : MysqlError
  incomplete_capabilities incomplete_character_set incomplete_status : MysqlError
  short_query short_ok short_eof short_error : MysqlError

pub record MysqlPacket : Type 0 where
  pub sequence_id : ℕ
  pub payload : Bytes

pub record HandshakePacket : Type 0 where
  pub protocol_version : ℕ
  pub server_version : Bytes
  pub connection_id : ℕ
  pub auth_plugin_data : Bytes
  pub capability_flags : ℕ
  pub character_set : ℕ
  pub status_flags : ℕ
  pub auth_plugin_name : Bytes

pub record QueryPacket : Type 0 where
  pub command : ℕ
  pub sql : Bytes

pub record OkPacket : Type 0 where
  pub affected_rows : ℕ
  pub last_insert_id : ℕ
  pub status_flags : ℕ
  pub warnings : ℕ

pub record EofPacket : Type 0 where
  pub warnings : ℕ
  pub status_flags : ℕ

pub record ErrorPacket : Type 0 where
  pub error_code : ℕ
  pub sql_state : Bytes
  pub message : Bytes

-- `int(uint32(data[0]) | uint32(data[1])<<8 | uint32(data[2])<<16)`; of bytes, `|` is `+` here.
abbrev pub payload_length : Bytes → ℕ
payload_length d = get_or d 0 0 + get_or d 1 0 * 256 + get_or d 2 0 * 2 ^ 16

unfoldable pub parse_mysql_packet : Bytes → Outcome MysqlError MysqlPacket
parse_mysql_packet d = do
  fail_if (ltb (length d) header_size) short_header
  b0 ← index d 0
  b1 ← index d 1
  b2 ← index d 2
  let payload_len = b0 + b1 * 256 + b2 * 2 ^ 16
  sequence ← index d 3
  fail_if (ltb (length d) (header_size + payload_len)) incomplete_packet
  body ← slice d header_size (header_size + payload_len)
  ok (record { sequence_id = sequence; payload = body })

-- `for offset < len(data) && data[offset] != 0x00 { offset++ }`, over `data[offset:]`.
unfoldable pub skip_to_nul : Bytes → ℕ → ℕ
skip_to_nul [] offset = offset
skip_to_nul (b ∷ rest) offset = if b == 0 then offset else skip_to_nul rest (offset + 1)

-- The plugin name at the end of a handshake; it is left empty when it does not fit.
unfoldable pub plugin_name : Bytes → ℕ → Outcome MysqlError Bytes
plugin_name d offset = if ltb (length d) (offset + 2) then ok [] else do
  name_len ← index d offset
  if ltb (length d) (offset + 1 + name_len)
      then ok []
      else slice d (offset + 1) (offset + 1 + name_len)

-- What follows the version string, from the byte after its terminator.
unfoldable pub handshake_rest : Bytes → ℕ → Bytes → ℕ → Outcome MysqlError HandshakePacket
unfolding plugin_name
handshake_rest d version server offset = do
  fail_if (ltb (length d) (offset + 4)) incomplete_connection_id
  connection ← le32 d offset
  fail_if (ltb (length d) (offset + 4 + 8 + 1)) incomplete_auth_data
  auth ← slice d (offset + 4) (offset + 4 + 8)
  fail_if (ltb (length d) (offset + 13 + 4)) incomplete_capabilities
  capabilities ← le32 d (offset + 13)
  fail_if (ltb (length d) (offset + 17 + 1)) incomplete_character_set
  charset ← index d (offset + 17)
  fail_if (ltb (length d) (offset + 18 + 2)) incomplete_status
  status ← le16 d (offset + 18)
  name ← plugin_name d (offset + 20)
  ok (record {
    protocol_version = version;
    server_version = server;
    connection_id = connection;
    auth_plugin_data = auth;
    capability_flags = capabilities;
    character_set = charset;
    status_flags = status;
    auth_plugin_name = name;
  })

unfoldable pub parse_mysql_handshake : Bytes → Outcome MysqlError HandshakePacket
unfolding handshake_rest skip_to_nul
parse_mysql_handshake d = do
  fail_if (ltb (length d) 5) short_handshake
  version ← index d 0
  let offset = skip_to_nul (drop 1 d) 1
  server ← slice d 1 offset
  handshake_rest d version server (offset + 1)

unfoldable pub parse_mysql_query : Bytes → Outcome MysqlError QueryPacket
parse_mysql_query d = do
  fail_if (ltb (length d) 1) short_query
  c ← index d 0
  text ← if ltb 1 (length d) then slice_from d 1 else ok []
  ok (record { command = c; sql = text })

-- `binary.LittleEndian.Uint64(data[1:9])`
abbrev pub le64 : Bytes → Outcome MysqlError ℕ
le64 d = slice d 1 9 >>= λ w. ok (
    get_or w 0 0
    + get_or w 1 0 * 256
    + get_or w 2 0 * 2 ^ 16
    + get_or w 3 0 * 2 ^ 24
    + get_or w 4 0 * 2 ^ 32
    + get_or w 5 0 * 2 ^ 40
    + get_or w 6 0 * 2 ^ 48
    + get_or w 7 0 * 2 ^ 56)

-- `uint64(data[1]) | uint64(data[2])<<8 | uint64(data[3])<<16`
abbrev pub le24 : Bytes → Outcome MysqlError ℕ
le24 d = do b1 ← index d 1; b2 ← index d 2; b3 ← index d 3; ok (b1 + b2 * 256 + b3 * 2 ^ 16)

abbrev pub with_size : ℕ → ℕ → ℕ × ℕ
with_size size n = (n, size)

-- By the first byte.
unfoldable pub len_enc_rest : Bytes → ℕ → Outcome MysqlError (ℕ × ℕ)
len_enc_rest d first =
    if ltb first 0xfb
    then ok (first, 1)
    else if first == 0xfb
    then ok (0, 1)
    else if first == 0xfc
    then (if ltb (length d) 3 then ok (0, 0) else (le16 d 1 >>= λ n. ok (with_size 3 n)))
    else if first == 0xfd
    then (if ltb (length d) 4 then ok (0, 0) else (le24 d >>= λ n. ok (with_size 4 n)))
    else (if ltb (length d) 9 then ok (0, 0) else (le64 d >>= λ n. ok (with_size 9 n)))

-- The value and the number of bytes read; (0, 0) when the bytes run out.
unfoldable pub read_len_enc_integer : Bytes → Outcome MysqlError (ℕ × ℕ)
unfolding len_enc_rest
read_len_enc_integer d =
    if length d == 0 then ok (0, 0) else (index d 0 >>= λ first. len_enc_rest d first)

-- `if offset+2 <= len(data) { … }` around a field that is otherwise left at 0.
abbrev pub le16_or_zero : Bytes → ℕ → Outcome MysqlError ℕ
le16_or_zero d offset = if leb (offset + 2) (length d) then le16 d offset else ok 0

-- The status flags and the warnings behind the two integers.
unfoldable pub ok_tail : Bytes → ℕ → ℕ → ℕ → Outcome MysqlError OkPacket
ok_tail d rows id offset = do
  status ← le16_or_zero d offset
  warned ← le16_or_zero d (if leb (offset + 2) (length d) then offset + 2 else offset)
  ok (record {
    affected_rows = rows;
    last_insert_id = id;
    status_flags = status;
    warnings = warned;
  })

unfoldable pub parse_mysql_ok : Bytes → Outcome MysqlError OkPacket
parse_mysql_ok d = do
  fail_if (ltb (length d) 7) short_ok
  rest ← slice_from d 1
  rows ← read_len_enc_integer rest
  after ← slice_from d (1 + rows.1)
  id ← read_len_enc_integer after
  ok_tail d rows.0 id.0 (1 + rows.1 + id.1)

unfoldable pub parse_mysql_eof : Bytes → Outcome MysqlError EofPacket
parse_mysql_eof d = do
  fail_if (ltb (length d) 5) short_eof
  w ← le16 d 1
  s ← le16 d 3
  ok (record { warnings = w; status_flags = s })

-- The SQL state and the message, of the new format with its `#` or of the old one.
unfoldable pub error_text : Bytes → ℕ → ℕ → Outcome MysqlError ErrorPacket
error_text d code marker =
    if ltb 3 (length d) && (marker == b'#')
    then if leb 9 (length d)
      then (do
        state ← slice d 4 9
        text ← slice_from d 9
        ok (record { error_code = code; sql_state = state; message = text }))
      else ok (record { error_code = code; sql_state = []; message = [] })
    else (do
      text ← slice_from d 3
      ok (record { error_code = code; sql_state = []; message = text }))

unfoldable pub parse_mysql_error : Bytes → Outcome MysqlError ErrorPacket
unfolding error_text
parse_mysql_error d = do
  fail_if (ltb (length d) 4) short_error
  code ← le16 d 1
  marker ← index d 3
  error_text d code marker

-- `sequenceID > 255` on a byte and `payloadLen < 0` are never so.
unfoldable pub is_mysql_packet : Bytes → Bool
is_mysql_packet d =
    if ltb (length d) header_size
    then false
    else if ltb max_packet_size (payload_length d)
    then false
    else if ltb 255 (get_or d 3 0)
    then false
    else true

-- The statement keywords, in the order in which they are tried.
unfoldable pub get_mysql_command : Bytes → Bytes
unfolding has_prefix to_upper trim_space
get_mysql_command text =
    let sql = to_upper (trim_space text) in
    if has_prefix sql (codes "SELECT")
    then codes "SELECT"
    else if has_prefix sql (codes "INSERT")
    then codes "INSERT"
    else if has_prefix sql (codes "UPDATE")
    then codes "UPDATE"
    else if has_prefix sql (codes "DELETE")
    then codes "DELETE"
    else if has_prefix sql (codes "CREATE")
    then codes "CREATE"
    else if has_prefix sql (codes "ALTER")
    then codes "ALTER"
    else if has_prefix sql (codes "DROP")
    then codes "DROP"
    else if has_prefix sql (codes "TRUNCATE")
    then codes "TRUNCATE"
    else if has_prefix sql (codes "GRANT")
    then codes "GRANT"
    else if has_prefix sql (codes "REVOKE")
    then codes "REVOKE"
    else if has_prefix sql (codes "BEGIN")
    then codes "BEGIN"
    else if has_prefix sql (codes "COMMIT")
    then codes "COMMIT"
    else if has_prefix sql (codes "ROLLBACK")
    then codes "ROLLBACK"
    else codes "OTHER"
