-- ===== src/Protocol/Http2/Frames.antt =====
-- http2.go against the frame formats of RFC 9113, written out as encoders.
use ebpf_probe.Prelude.{
  ℕ, zero, suc, ◌+◌, ◌*◌, ◌/◌, ◌%◌, ◌^◌, ◌<◌, ◌≡◌, ◌≢◌, ◌⊎◌, inl, inr, Bool-cases, refl, true,
  false, List, [], ◌∷◌, ◌++◌, Option, none, some, Bool, ok, err, panic, Bytes, All, length,
  length-append, take-append, arith, ◌==◌, if◌then◌else◌, big_endian,
}
use ebpf_probe.Protocol.Http2.{
  Http2Frame, Http2Setting, Http2HeadersFrame, Http2PriorityField, invalid_settings_length,
  parse_http2_frame, settings_loop, parse_http2_settings_frame, parse_http2_headers_frame,
  parse_http2_rst_stream_frame, parse_http2_goaway_frame, parse_http2_window_update_frame,
  parse_http2_ping_frame,
}

-- A frame: its length in three bytes, type, flags, and the stream behind a reserved bit.
unfoldable pub encode_frame : ℕ → Http2Frame → Bytes
unfolding big_endian
encode_frame reserved f =
    big_endian 3 f.len
    ++ f.frame_type ∷ f.flags ∷ (big_endian 4 (reserved * 2 ^ 31 + f.stream_id) ++ f.payload)

-- The frame's fields are in their ranges, and its length is that of its payload.
pub record IsFrame (f : Http2Frame) : Type 0 where
  pub exact : f.len ≡ length f.payload
  pub short : f.len < 2 ^ 24
  pub stream : f.stream_id < 2 ^ 31

-- A frame with its fields in range and its length field equal to the length of its payload is read
-- back, whatever its reserved bit and whatever bytes follow it.
pub parse_http2_frame-encode_frame :
    (f : Http2Frame) (reserved : ℕ) (rest : Bytes)
    → IsFrame f
    → reserved < 2
    → parse_http2_frame (encode_frame reserved f ++ rest) ≡ ok f
unfolding parse_http2_frame encode_frame
parse_http2_frame-encode_frame f reserved rest h lt =
    ground (arith, length-append f.payload rest, take-append f.payload rest, h.exact)

-- The payload of a SETTINGS frame.
unfoldable pub encode_settings : List Http2Setting → Bytes
unfolding big_endian
encode_settings [] = []
encode_settings (s ∷ more) = big_endian 2 s.id ++ (big_endian 4 s.value ++ encode_settings more)

pub record IsSetting (s : Http2Setting) : Type 0 where
  pub id_range : s.id < 2 ^ 16
  pub value_range : s.value < 2 ^ 32

settings_loop-encode_settings :
    (l : List Http2Setting) → All IsSetting l → settings_loop (encode_settings l) ≡ ok l
unfolding settings_loop encode_settings
settings_loop-encode_settings [] h = refl
settings_loop-encode_settings (s ∷ l) h = ground (arith, settings_loop-encode_settings l h.1, h.0)

length-encode_settings : (l : List Http2Setting) → length (encode_settings l) ≡ 6 * length l
unfolding encode_settings
length-encode_settings [] = omega arith
length-encode_settings (s ∷ l) = omega (arith, length-encode_settings l)

-- The parameters of a SETTINGS frame, identifiers and values in range, are read back in order.
pub parse_http2_settings_frame-encode_settings :
    (l : List Http2Setting)
    → All IsSetting l
    → parse_http2_settings_frame (encode_settings l) ≡ ok l
unfolding parse_http2_settings_frame
parse_http2_settings_frame-encode_settings l h =
    ground (arith, length-encode_settings l, settings_loop-encode_settings l h)

settings_loop_total :
    (d : Bytes) (n : ℕ)
    → length d ≡ 6 * n
    → (l : List Http2Setting) × (settings_loop d ≡ ok l) × (length l ≡ n)
unfolding settings_loop
settings_loop_total [] zero h = ([], refl, refl)
settings_loop_total (a ∷ b ∷ c ∷ d ∷ e ∷ f ∷ rest) (suc n) h =
    let (l, read, count) = settings_loop_total rest n (omega arith) in
    let s : Http2Setting = record {
      id = a * 256 + b;
      value = c * 2 ^ 24 + d * 2 ^ 16 + e * 256 + f;
    } in
    (s ∷ l, rw read, omega arith)
settings_loop_total _ _ h = absurd (omega arith)

-- A SETTINGS payload is read as one parameter for each six bytes, and refused only where its length
-- is no multiple of six.
pub parse_http2_settings_frame_total :
    (d : Bytes)
    → ((l : List Http2Setting) × (parse_http2_settings_frame d ≡ ok l) × (6 * length l ≡ length d))
      ⊎ ((parse_http2_settings_frame d ≡ err invalid_settings_length) × (0 < length d % 6))
unfolding parse_http2_settings_frame
parse_http2_settings_frame_total d = elim (Bool-cases (length d % 6 == 0)) [
  | inl whole ↦
      let (l, read, count) = settings_loop_total d (length d / 6) (ground arith) in
      inl (l, ground arith, ground arith)
  | inr ragged ↦ inr (ground arith, ground arith)
]

settings_safe : (d : Bytes) → parse_http2_settings_frame d ≢ panic
settings_safe d h = elim (parse_http2_settings_frame_total d) [
  | inl (l, read, count) ↦ cc
  | inr (refused, ragged) ↦ cc
]

-- The flags and the payload of a HEADERS frame without padding.
abbrev flag : Bool → ℕ → ℕ
flag set value = if set then value else 0

unfoldable pub encode_priority : Option Http2PriorityField → Bytes
unfolding big_endian
encode_priority none = []
encode_priority (some p) =
    big_endian 4 (flag p.exclusive (2 ^ 31) + p.stream_dependency) ++ p.weight ∷ []

abbrev pub priority_flag : Option Http2PriorityField → ℕ
priority_flag none = 0
priority_flag (some p) = 32

unfoldable pub encode_headers : Http2HeadersFrame → Http2Frame
unfolding encode_priority
encode_headers h = record {
  len = length (encode_priority h.priority ++ h.header_block_fragment);
  frame_type = 1;
  flags = flag h.end_stream 1 + flag h.end_headers 4 + priority_flag h.priority;
  stream_id = h.stream_id;
  payload = encode_priority h.priority ++ h.header_block_fragment;
}

abbrev pub IsPriority : Option Http2PriorityField → Type 0
IsPriority none = Unit {0}
IsPriority (some p) = p.stream_dependency < 2 ^ 31

headers_without :
    (n : ℕ) (a b : Bool) (block : Bytes)
    → let h : Http2HeadersFrame = record {
      stream_id = n;
      end_stream = a;
      end_headers = b;
      priority = none;
      header_block_fragment = block;
    } in
      parse_http2_headers_frame (encode_headers h) ≡ ok h
unfolding parse_http2_headers_frame encode_headers
headers_without n false false block = ground arith
headers_without n false true block = ground arith
headers_without n true false block = ground arith
headers_without n true true block = ground arith

headers_with_priority :
    (n : ℕ) (a b : Bool) (p : Http2PriorityField) (block : Bytes)
    → p.stream_dependency < 2 ^ 31
    → let h : Http2HeadersFrame = record {
      stream_id = n;
      end_stream = a;
      end_headers = b;
      priority = some p;
      header_block_fragment = block;
    } in
      parse_http2_headers_frame (encode_headers h) ≡ ok h
unfolding parse_http2_headers_frame encode_headers
headers_with_priority n false false p block lt = ground arith
headers_with_priority n false true p block lt = ground arith
headers_with_priority n true false p block lt = ground arith
headers_with_priority n true true p block lt = ground arith

goaway_safe : (f : Http2Frame) → parse_http2_goaway_frame f ≢ panic
unfolding parse_http2_goaway_frame
goaway_safe f = ground arith

headers_safe : (f : Http2Frame) → parse_http2_headers_frame f ≢ panic
unfolding parse_http2_headers_frame
headers_safe f = ground arith

frame_safe : (d : Bytes) → parse_http2_frame d ≢ panic
unfolding parse_http2_frame
frame_safe d = ground arith

-- On every input, none of the HTTP/2 parsers indexes or slices out of range.
pub http2_never_panics :
    (d : Bytes) (f : Http2Frame)
    → (parse_http2_frame d ≢ panic)
      × (parse_http2_settings_frame d ≢ panic)
      × (parse_http2_headers_frame f ≢ panic)
      × (parse_http2_rst_stream_frame f ≢ panic)
      × (parse_http2_goaway_frame f ≢ panic)
      × (parse_http2_window_update_frame f ≢ panic)
      × (parse_http2_ping_frame f ≢ panic)
unfolding parse_http2_rst_stream_frame parse_http2_window_update_frame parse_http2_ping_frame
http2_never_panics d f = (
  frame_safe d,
  settings_safe d,
  headers_safe f,
  ground arith,
  goaway_safe f,
  ground arith,
  ground arith,
)

-- A HEADERS frame without padding, its priority fields in range if it has them, is read back: its
-- flags, its priority fields and its header block.
pub parse_http2_headers_frame-encode_headers :
    (h : Http2HeadersFrame)
    → IsPriority h.priority
    → parse_http2_headers_frame (encode_headers h) ≡ ok h
parse_http2_headers_frame-encode_headers h p =
    by_priority h.stream_id h.end_stream h.end_headers h.priority h.header_block_fragment p
  where
    by_priority :
        (n : ℕ) (a b : Bool) (p : Option Http2PriorityField) (block : Bytes)
        → IsPriority p
        → let h : Http2HeadersFrame = record {
          stream_id = n;
          end_stream = a;
          end_headers = b;
          priority = p;
          header_block_fragment = block;
        } in
          parse_http2_headers_frame (encode_headers h) ≡ ok h
    by_priority n a b none block p = headers_without n a b block
    by_priority n a b (some q) block p = headers_with_priority n a b q block p
