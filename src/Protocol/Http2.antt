-- ===== src/Protocol/Http2.antt =====
-- pkg/protocol/http2.go, the frame layer: the frame header and the payloads of each frame type.
-- `x & 0x7FFFFFFF` is `x % 2^31`, and `flags & (1 << k) != 0` is `bit flags k`.
pub mod Frames
mod Tests
use ebpf_probe.Prelude.{
  ℕ, zero, suc, ◌+◌, ◌-◌, ◌*◌, ◌%◌, ◌^◌, Bool, true, false, not, List, [], ◌∷◌, ◌++◌, Option, none,
  some, Outcome, ok, err, panic, ◌>>=◌, ◌>>◌, fail_if, bit, Bytes, index, slice, slice_from, be16,
  be32, length, take, ltb, leb, ◌==◌, if◌then◌else◌, codes, bytes_eq,
}
use ebpf_probe.Prelude.Decimal.{format_int}

pub data Http2Error : Type 0 where
  short_frame incomplete_frame invalid_settings_length invalid_priority : Http2Error
  invalid_rst_stream_length invalid_goaway_length : Http2Error
  invalid_window_update_length invalid_ping_length : Http2Error

pub record Http2Frame : Type 0 where
  pub len : ℕ
  pub frame_type : ℕ
  pub flags : ℕ
  pub stream_id : ℕ
  pub payload : Bytes

pub record Http2Setting : Type 0 where
  pub id : ℕ
  pub value : ℕ

pub record Http2PriorityField : Type 0 where
  pub stream_dependency : ℕ
  pub weight : ℕ
  pub exclusive : Bool

pub record Http2HeadersFrame : Type 0 where
  pub stream_id : ℕ
  pub end_stream : Bool
  pub end_headers : Bool
  pub priority : Option Http2PriorityField
  pub header_block_fragment : Bytes

pub record Http2RstStreamFrame : Type 0 where
  pub stream_id : ℕ
  pub error_code : ℕ

pub record Http2GoAwayFrame : Type 0 where
  pub last_stream_id : ℕ
  pub error_code : ℕ
  pub debug_data : Bytes

pub record Http2WindowUpdateFrame : Type 0 where
  pub stream_id : ℕ
  pub increment : ℕ

pub record Http2PingFrame : Type 0 where
  pub opaque_data : Bytes

-- The length has 24 bits, so that `9 + frame.Length` in uint32 does not wrap around.
unfoldable pub parse_http2_frame : Bytes → Outcome Http2Error Http2Frame
parse_http2_frame d = do
  fail_if (ltb (length d) 9) short_frame
  b0 ← index d 0
  b1 ← index d 1
  b2 ← index d 2
  let n = b0 * 2 ^ 16 + b1 * 256 + b2
  kind ← index d 3
  bits ← index d 4
  stream ← be32 d 5
  fail_if (ltb (length d) (9 + n)) incomplete_frame
  body ← slice d 9 (9 + n)
  ok (record {
    len = n;
    frame_type = kind;
    flags = bits;
    stream_id = stream % 2 ^ 31;
    payload = body;
  })

-- The loop `for i := 0; i < len(payload); i += 6` over `payload[i:]`; a rest of one to five bytes
-- would be sliced out of range.
unfoldable pub settings_loop : Bytes → Outcome Http2Error (List Http2Setting)
settings_loop [] = ok []
settings_loop (a ∷ b ∷ c ∷ d ∷ e ∷ f ∷ rest) = do
  later ← settings_loop rest
  ok (record { id = a * 256 + b; value = c * 2 ^ 24 + d * 2 ^ 16 + e * 256 + f } ∷ later)
settings_loop _ = panic

unfoldable pub parse_http2_settings_frame : Bytes → Outcome Http2Error (List Http2Setting)
unfolding settings_loop
parse_http2_settings_frame payload = do
  fail_if (not (length payload % 6 == 0)) invalid_settings_length
  settings_loop payload

-- `payload[offset:]` as the header block, behind the optional priority fields.
unfoldable pub headers_with :
    Http2Frame → Option Http2PriorityField → ℕ → Outcome Http2Error Http2HeadersFrame
headers_with frame field offset = do
  fragment ← slice_from frame.payload offset
  ok (record {
    stream_id = frame.stream_id;
    end_stream = bit frame.flags 0;
    end_headers = bit frame.flags 2;
    priority = field;
    header_block_fragment = fragment;
  })

unfoldable pub parse_priority : Http2Frame → Outcome Http2Error Http2HeadersFrame
unfolding headers_with
parse_priority frame = do
  fail_if (ltb (length frame.payload) 5) invalid_priority
  dependency ← be32 frame.payload 0
  first ← index frame.payload 0
  w ← index frame.payload 4
  headers_with frame
      (some
        (record { stream_dependency = dependency % 2 ^ 31; weight = w; exclusive = bit first 7 }))
      5

unfoldable pub parse_http2_headers_frame : Http2Frame → Outcome Http2Error Http2HeadersFrame
unfolding headers_with parse_priority
parse_http2_headers_frame frame =
    if bit frame.flags 5 then parse_priority frame else headers_with frame none 0

unfoldable pub parse_http2_rst_stream_frame : Http2Frame → Outcome Http2Error Http2RstStreamFrame
parse_http2_rst_stream_frame frame = do
  fail_if (not (length frame.payload == 4)) invalid_rst_stream_length
  code ← be32 frame.payload 0
  ok (record { stream_id = frame.stream_id; error_code = code })

unfoldable pub parse_http2_goaway_frame : Http2Frame → Outcome Http2Error Http2GoAwayFrame
parse_http2_goaway_frame frame = do
  fail_if (ltb (length frame.payload) 8) invalid_goaway_length
  last ← be32 frame.payload 0
  code ← be32 frame.payload 4
  debug ← slice_from frame.payload 8
  ok (record { last_stream_id = last % 2 ^ 31; error_code = code; debug_data = debug })

unfoldable pub parse_http2_window_update_frame :
    Http2Frame → Outcome Http2Error Http2WindowUpdateFrame
parse_http2_window_update_frame frame = do
  fail_if (not (length frame.payload == 4)) invalid_window_update_length
  n ← be32 frame.payload 0
  ok (record { stream_id = frame.stream_id; increment = n % 2 ^ 31 })

-- `copy` into the eight bytes of the array.
unfoldable pub parse_http2_ping_frame : Http2Frame → Outcome Http2Error Http2PingFrame
parse_http2_ping_frame frame = do
  fail_if (not (length frame.payload == 8)) invalid_ping_length
  ok (record { opaque_data = take 8 frame.payload })

abbrev pub http2_magic : Bytes
http2_magic = codes "PRI * HTTP/2.0" ++ 13 ∷ 10 ∷ 13 ∷ 10 ∷ codes "SM" ++ 13 ∷ 10 ∷ 13 ∷ 10 ∷ []

unfoldable pub is_http2_magic : Bytes → Bool
unfolding bytes_eq
is_http2_magic d =
    if ltb (length d) (length http2_magic)
    then false
    else bytes_eq (take (length http2_magic) d) http2_magic

-- `fmt.Sprintf("UNKNOWN(%d)", n)`
unfoldable pub unknown_name : ℕ → Bytes
unfolding format_int
unknown_name n = codes "UNKNOWN(" ++ (format_int n ++ codes ")")

unfoldable pub get_http2_frame_type_name : ℕ → Bytes
unfolding unknown_name
get_http2_frame_type_name t =
    if t == 0x0
    then codes "DATA"
    else if t == 0x1
    then codes "HEADERS"
    else if t == 0x2
    then codes "PRIORITY"
    else if t == 0x3
    then codes "RST_STREAM"
    else if t == 0x4
    then codes "SETTINGS"
    else if t == 0x5
    then codes "PUSH_PROMISE"
    else if t == 0x6
    then codes "PING"
    else if t == 0x7
    then codes "GOAWAY"
    else if t == 0x8
    then codes "WINDOW_UPDATE"
    else if t == 0x9
    then codes "CONTINUATION"
    else unknown_name t
