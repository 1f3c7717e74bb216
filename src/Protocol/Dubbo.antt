-- ===== src/Protocol/Dubbo.antt =====
-- pkg/protocol/dubbo.go: the protocol header, requests and responses, and the packet test. The
-- fields of a request and a response that no function sets are left out.
pub mod Hessian
pub mod Header
mod Tests
use ebpf_probe.Prelude.{
  ℕ, ◌+◌, ◌*◌, ◌/◌, ◌%◌, ◌^◌, Bool, true, false, ◌&&◌, ◌||◌, List, [], ◌∷◌, ◌++◌, Outcome, ok, err,
  panic, ◌>>=◌, ◌>>◌, fail_if, Bytes, index, be16, be32, be64, bit, get_or, length, ltb, leb, ◌==◌,
  not, if◌then◌else◌, codes, signed, Names, name_of, Option, none, some,
}
use ebpf_probe.Prelude.Decimal.{ℤ, pos, negsuc, format_int}

-- The error messages.
pub data DubboError : Type 0 where
  short_header : DubboError
  invalid_magic : ℕ → DubboError
  invalid_body_length : ℤ → DubboError
  short_request : DubboError
  short_response : DubboError

abbrev pub dubbo_magic : ℕ
dubbo_magic = 0xdabb

abbrev pub dubbo_header_length : ℕ
dubbo_header_length = 16

abbrev pub dubbo_max_body_length : ℕ
dubbo_max_body_length = 8 * 1024 * 1024

-- The event type is never set, and left out.
pub record DubboProtocolHeader : Type 0 where
  pub magic : ℕ
  pub flags : ℕ
  pub status : ℕ
  pub serialization : ℕ
  pub message_type : ℕ
  pub is_two_way : Bool
  pub is_event : Bool
  pub body_length : ℤ
  pub request_id : ℤ

-- `n < 0 || n > DubboMaxBodyLength`
unfoldable pub is_invalid_length : ℤ → Bool
is_invalid_length (pos n) = ltb dubbo_max_body_length n
is_invalid_length (negsuc n) = true

-- `int32(w)` and `int64(w)`
unfoldable pub body_length_of : ℕ → ℤ
unfolding signed
body_length_of w = signed (2 ^ 31) w

unfoldable pub request_id_of : ℕ → ℤ
unfolding signed
request_id_of w = signed (2 ^ 63) w

-- Both branches on the message type set the status to the same byte again.
unfoldable pub parse_dubbo_protocol_header : Bytes → Outcome DubboError DubboProtocolHeader
parse_dubbo_protocol_header d = do
  fail_if (ltb (length d) dubbo_header_length) short_header
  m ← be16 d 0
  fail_if (not (m == dubbo_magic)) (invalid_magic m)
  flags ← index d 2
  status ← index d 3
  id ← be64 d 4
  len ← be32 d 12
  fail_if (is_invalid_length (body_length_of len)) (invalid_body_length (body_length_of len))
  ok (record {
    magic = m;
    flags = flags;
    status = status;
    serialization = flags % 32;
    message_type = flags / 32 % 2;
    is_two_way = bit flags 5;
    is_event = bit flags 4;
    body_length = body_length_of len;
    request_id = request_id_of id;
  })

pub record DubboRequest : Type 0 where
  pub header : DubboProtocolHeader

pub record DubboResponse : Type 0 where
  pub header : DubboProtocolHeader

-- The body is cut off at offset 16 and not read.
unfoldable pub parse_dubbo_request : Bytes → Outcome DubboError DubboRequest
parse_dubbo_request d = do
  fail_if (ltb (length d) dubbo_header_length) short_request
  h ← parse_dubbo_protocol_header d
  ok (record { header = h })

unfoldable pub parse_dubbo_response : Bytes → Outcome DubboError DubboResponse
parse_dubbo_response d = do
  fail_if (ltb (length d) dubbo_header_length) short_response
  h ← parse_dubbo_protocol_header d
  ok (record { header = h })

-- `msgType > 1` is never so for a single bit.
unfoldable pub is_dubbo_packet : Bytes → Bool
is_dubbo_packet d =
    let len =
      get_or d 12 0 * 2 ^ 24 + get_or d 13 0 * 2 ^ 16 + get_or d 14 0 * 256 + get_or d 15 0 in
    if ltb (length d) dubbo_header_length
    then false
    else if not (get_or d 0 0 * 256 + get_or d 1 0 == dubbo_magic)
    then false
    else if ltb 1 (get_or d 2 0 / 32 % 2)
    then false
    else not (is_invalid_length (body_length_of len))

abbrev pub dubbo_status_names : Names
dubbo_status_names =
    (20, codes "OK")
    ∷ (30, codes "CLIENT_TIMEOUT")
    ∷ (31, codes "SERVER_TIMEOUT")
    ∷ (40, codes "BAD_REQUEST")
    ∷ (50, codes "BAD_RESPONSE")
    ∷ (60, codes "SERVICE_NOT_FOUND")
    ∷ (70, codes "SERVICE_ERROR")
    ∷ (80, codes "SERVER_ERROR")
    ∷ (90, codes "CLIENT_ERROR")
    ∷ []

unfoldable pub get_dubbo_status_name : ℕ → Bytes
unfolding name_of format_int
get_dubbo_status_name status = elim (name_of dubbo_status_names status) [
  | none ↦ codes "UNKNOWN(" ++ (format_int status ++ codes ")")
  | some name ↦ name
]

unfoldable pub get_dubbo_message_type_name : ℕ → Bytes
unfolding format_int
get_dubbo_message_type_name t =
    if t == 1
    then codes "Request"
    else if t == 2
    then codes "Response"
    else codes "Unknown(" ++ (format_int t ++ codes ")")

unfoldable pub get_dubbo_serialization_name : ℕ → Bytes
unfolding format_int
get_dubbo_serialization_name s =
    if s == 2
    then codes "Hessian2"
    else if s == 6
    then codes "JSON"
    else if s == 12
    then codes "Protobuf"
    else codes "Unknown(" ++ (format_int s ++ codes ")")
