-- ===== src/Protocol/Hpack.antt =====
-- pkg/protocol/http2.go, the HPACK decoder: integers, strings, header fields and header blocks.
-- The decoder's state is its dynamic table; `int` and `uint64` sums are taken modulo 2^64, and an
-- index whose 64-bit pattern is out of range panics, a negative one included.
pub mod Integer
pub mod Strings
pub mod Block
mod Tests
use ebpf_probe.Prelude.{
  ℕ, zero, suc, ◌+◌, ◌-◌, ◌*◌, ◌/◌, ◌%◌, ◌^◌, Bool, true, false, List, [], ◌∷◌, ◌++◌, Option, none,
  some, Outcome, ok, err, panic, ◌>>=◌, ◌>>◌, fail_if, Bytes, index, slice, slice_from, length,
  get_or, drop, ltb, leb, ◌==◌, if◌then◌else◌, codes, bytes_eq,
}
use ebpf_probe.Protocol.Http2.{Http2HeadersFrame}

-- `out_of_fuel` has no counterpart in the program; the loop never meets it.
pub data HpackError : Type 0 where
  empty_data invalid_index invalid_name_index invalid_length incomplete_string out_of_fuel :
      HpackError

pub record HeaderField : Type 0 where
  pub name : Bytes
  pub value : Bytes

abbrev pub DynamicTable : Type 0
DynamicTable = List HeaderField

-- hpackStaticTable, by index.
abbrev pub hpack_static_table : List Bytes
hpack_static_table =
    codes ""
    ∷ codes ":authority"
    ∷ codes ":method"
    ∷ codes ":method"
    ∷ codes ":path"
    ∷ codes ":path"
    ∷ codes ":scheme"
    ∷ codes ":scheme"
    ∷ codes ":status"
    ∷ codes ":status"
    ∷ codes ":status"
    ∷ codes ":status"
    ∷ codes ":status"
    ∷ codes ":status"
    ∷ codes ":status"
    ∷ codes ":status"
    ∷ codes ":status"
    ∷ codes ":status"
    ∷ codes ":status"
    ∷ codes ":status"
    ∷ codes "accept-charset"
    ∷ codes "accept-encoding"
    ∷ codes "accept-language"
    ∷ codes "accept-ranges"
    ∷ codes "accept"
    ∷ codes "access-control-allow-origin"
    ∷ codes "age"
    ∷ codes "allow"
    ∷ codes "authorization"
    ∷ codes "cache-control"
    ∷ codes "content-disposition"
    ∷ codes "content-encoding"
    ∷ codes "content-language"
    ∷ codes "content-length"
    ∷ codes "content-location"
    ∷ codes "content-range"
    ∷ codes "content-type"
    ∷ codes "cookie"
    ∷ codes "date"
    ∷ codes "etag"
    ∷ codes "expect"
    ∷ codes "expires"
    ∷ codes "from"
    ∷ codes "host"
    ∷ codes "if-match"
    ∷ codes "if-modified-since"
    ∷ codes "if-none-match"
    ∷ codes "if-range"
    ∷ codes "if-unmodified-since"
    ∷ codes "last-modified"
    ∷ codes "link"
    ∷ codes "location"
    ∷ codes "max-forwards"
    ∷ codes "proxy-authenticate"
    ∷ codes "proxy-authorization"
    ∷ codes "range"
    ∷ codes "referer"
    ∷ codes "refresh"
    ∷ codes "retry-after"
    ∷ codes "server"
    ∷ codes "set-cookie"
    ∷ codes "strict-transport-security"
    ∷ codes "transfer-encoding"
    ∷ codes "user-agent"
    ∷ codes "vary"
    ∷ codes "via"
    ∷ codes "www-authenticate"
    ∷ []

-- The continuation bytes: seven bits each, the least significant first, until the high bit is clear.
unfoldable pub integer_loop : Bytes → ℕ → ℕ → ℕ → ℕ × ℕ
integer_loop [] result shift offset = (result, offset)
integer_loop (b ∷ rest) result shift offset =
    let sum = (result + (b % 128 * 2 ^ shift) % 2 ^ 64) % 2 ^ 64 in
    if ltb b 128 then (sum, offset + 1) else integer_loop rest sum (shift + 7) (offset + 1)

-- The value and the number of bytes read; `first & mask` is `first % 2^prefix`.
unfoldable pub decode_integer : Bytes → ℕ → ℕ × ℕ
decode_integer [] prefix = (0, 0)
decode_integer (first ∷ rest) prefix =
    if ltb (first % 2 ^ prefix) (2 ^ prefix - 1)
    then (first % 2 ^ prefix, 1)
    else integer_loop rest (first % 2 ^ prefix) prefix 1

-- The string and the number of bytes read. A Huffman-coded string is returned as it stands.
unfoldable pub decode_string : Bytes → Outcome HpackError (Bytes × ℕ)
decode_string d = do
  fail_if (length d == 0) empty_data
  let n = (decode_integer d 7).0
  let consumed = (decode_integer d 7).1
  fail_if (consumed == 0) invalid_length
  fail_if (ltb (length d) ((consumed + n) % 2 ^ 64)) incomplete_string
  text ← slice d consumed ((consumed + n) % 2 ^ 64)
  ok (text, (consumed + n) % 2 ^ 64)

-- One header field: the name, the value, the bytes read, and the dynamic table after it.
abbrev pub Field : Type 0
Field = record { field : HeaderField; used : ℕ; table : DynamicTable }

-- An indexed field: its name comes from the static table, its value is left empty.
unfoldable pub indexed_field : DynamicTable → Bytes → Outcome HpackError Field
indexed_field table d = do
  let i = (decode_integer d 7).0
  let consumed = (decode_integer d 7).1
  fail_if (consumed == 0) invalid_index
  ok (record {
    field = record {
      name = if ltb i (length hpack_static_table) then get_or hpack_static_table i [] else [];
      value = [];
    };
    used = consumed;
    table = table;
  })

-- A literal field, its name index of `prefix` bits read and not used.
unfoldable pub literal_field : ℕ → (HeaderField → DynamicTable) → Bytes → Outcome HpackError Field
literal_field prefix grow d = do
  let consumed = (decode_integer d prefix).1
  fail_if (consumed == 0) invalid_name_index
  at_name ← slice_from d consumed
  named ← decode_string at_name
  at_value ← slice_from d (consumed + named.1)
  valued ← decode_string at_value
  ok (record {
    field = record { name = named.0; value = valued.0 };
    used = consumed + named.1 + valued.1;
    table = grow (record { name = named.0; value = valued.0 });
  })

unfoldable pub decode_header_field : DynamicTable → Bytes → Outcome HpackError Field
decode_header_field table [] = err empty_data
decode_header_field table (b ∷ rest) =
    if leb 128 b
    then indexed_field table (b ∷ rest)
    else if leb 64 b
    then literal_field 6 (λ f. table ++ f ∷ []) (b ∷ rest)
    else literal_field 4 (λ f. table) (b ∷ rest)

-- A Go map from strings to strings: the last write of a key is the one that is read.
abbrev pub Headers : Type 0
Headers = List HeaderField

unfoldable pub header : Headers → Bytes → Option Bytes
unfolding bytes_eq
header [] key = none
header (f ∷ fs) key = if bytes_eq f.name key then some f.value else header fs key

-- `for offset < len(data)`: the fields from `data[offset:]` on, put in front of those before.
unfoldable pub decode_loop :
    ℕ → DynamicTable → Headers → Bytes → Outcome HpackError (Headers × DynamicTable)
decode_loop zero table headers d = err out_of_fuel
decode_loop (suc fuel) table headers [] = ok (headers, table)
decode_loop (suc fuel) table headers (b ∷ rest) = decode_header_field table (b ∷ rest) >>= λ f.
    decode_loop fuel f.table (f.field ∷ headers) (drop f.used (b ∷ rest))

-- HPACKDecoder.Decode: a round for each byte is enough, since each field reads one at least.
unfoldable pub decode : DynamicTable → Bytes → Outcome HpackError (Headers × DynamicTable)
decode table d = decode_loop (suc (length d)) table [] d

pub record Http2Request : Type 0 where
  pub stream_id : ℕ
  pub method : Bytes
  pub path : Bytes
  pub authority : Bytes
  pub scheme : Bytes
  pub headers : Headers

-- `headers[key]`: the empty string if the key is missing.
unfoldable pub header_or_empty : Headers → Bytes → Bytes
unfolding header
header_or_empty fs key = elim (header fs key) [ none ↦ [] | some v ↦ v ]

unfoldable pub parse_http2_request :
    Http2HeadersFrame → DynamicTable → Outcome HpackError (Http2Request × DynamicTable)
unfolding header_or_empty
parse_http2_request frame table = do
  decoded ← decode table frame.header_block_fragment
  let hs = decoded.0
  ok (
    record {
      stream_id = frame.stream_id;
      method = header_or_empty hs (codes ":method");
      path = header_or_empty hs (codes ":path");
      authority = header_or_empty hs (codes ":authority");
      scheme = header_or_empty hs (codes ":scheme");
      headers = hs;
    },
    decoded.1,
  )
