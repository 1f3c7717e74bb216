-- ===== src/Protocol/Sniffer.antt =====
-- pkg/protocol/sniffer.go: which application protocol a captured payload belongs to, from the
-- ports of its connection and from its first bytes.
pub mod Detection
mod Tests
use ebpf_probe.Prelude.{
  ℕ, ◌+◌, ◌*◌, ◌^◌, Bool, true, false, ◌&&◌, ◌||◌, Option, none, some, List, [], ◌∷◌, Outcome, ok,
  err, panic, ◌>>=◌, ◌>>◌, Bytes, index, slice, be16, be32, length, any, ltb, leb, ◌==◌,
  if◌then◌else◌, codes, bytes_eq, to_upper,
}

pub data L7Protocol : Type 0 where
  l7_none : L7Protocol
  http : L7Protocol
  https : L7Protocol
  http2 : L7Protocol
  mysql : L7Protocol
  redis : L7Protocol
  kafka : L7Protocol
  dubbo : L7Protocol
  dns : L7Protocol

-- L7Sniffer.portOverride; a missing key is `none`.
abbrev pub PortOverride : Type 0
PortOverride = ℕ → Option L7Protocol

unfoldable pub is_http_port : ℕ → Bool
is_http_port p = p == 80 || p == 443 || p == 8080

unfoldable pub detect_by_port : ℕ → ℕ → L7Protocol
unfolding is_http_port
detect_by_port src dst =
    if is_http_port dst
    then http
    else if is_http_port src
    then http
    else if dst == 3306 || src == 3306
    then mysql
    else if dst == 6379 || src == 6379
    then redis
    else if dst == 9092 || src == 9092
    then kafka
    else if dst == 20880 || src == 20880
    then dubbo
    else if dst == 53 || src == 53
    then dns
    else l7_none

abbrev pub methods : List Bytes
methods =
    codes "GET"
    ∷ codes "POST"
    ∷ codes "PUT"
    ∷ codes "DELETE"
    ∷ codes "HEAD"
    ∷ codes "OPTIONS"
    ∷ codes "PATCH"
    ∷ codes "CONNECT"
    ∷ codes "TRACE"
    ∷ []

-- `len(data) >= len(word) && string(data[:len(word)]) == word`
unfoldable pub begins : Bytes → Bytes → Outcome ⊥ Bool
unfolding bytes_eq
begins d word =
    if leb (length word) (length d)
    then (slice d 0 (length word) >>= λ text. ok (bytes_eq text word))
    else ok false

-- The method, and a blank behind it.
unfoldable pub followed : Bytes → Bytes → Outcome ⊥ Bool
unfolding begins
followed d method = begins d method >>= λ b.
    if b && ltb (length method) (length d)
    then (index d (length method) >>= λ c. ok (c == b' '))
    else ok false

unfoldable pub any_method : Bytes → List Bytes → Outcome ⊥ Bool
unfolding followed
any_method d [] = ok false
any_method d (method ∷ methods) =
    let rest = any_method d methods in followed d method >>= λ b. if b then ok true else rest

unfoldable pub verify_http : Bytes → Outcome ⊥ Bool
unfolding any_method begins
verify_http d =
    if ltb (length d) 8
    then ok false
    else (any_method d methods >>= λ b. if b then ok true else begins d (codes "HTTP"))

unfoldable pub verify_mysql : Bytes → Outcome ⊥ Bool
verify_mysql d = if ltb (length d) 4 then ok false else do
  b0 ← index d 0
  handshake ← if b0 == 0 then (index d 4 >>= λ b4. ok (b4 == 10)) else ok false
  ok (handshake || b0 == 3 || (b0 == 0 && ltb 1 (length d)) || (b0 == 254 && length d == 5))

unfoldable pub is_resp : ℕ → Bool
is_resp b = b == b'*' || b == b'$' || b == b'+' || b == b'-' || b == b':'

-- The first three bytes as a command.
abbrev pub is_inline : Bytes → Bool
is_inline cmd =
    any (bytes_eq (to_upper cmd)) (codes "GET" ∷ codes "SET" ∷ codes "DEL" ∷ codes "PING" ∷ [])

unfoldable pub verify_redis : Bytes → Outcome ⊥ Bool
unfolding is_resp bytes_eq to_upper
verify_redis d =
    if ltb (length d) 2
    then ok false
    else (index d 0 >>= λ first.
        if is_resp first
        then ok true
        else if leb 3 (length d)
        then (slice d 0 3 >>= λ cmd. ok (is_inline cmd))
        else ok false)

unfoldable pub verify_kafka : Bytes → Outcome ⊥ Bool
verify_kafka d =
    if ltb (length d) 4 then ok false else (be32 d 0 >>= λ n. ok (ltb 0 n && ltb n 1048576))

unfoldable pub verify_dubbo : Bytes → Outcome ⊥ Bool
verify_dubbo d =
    if ltb (length d) 16 then ok false else (be16 d 0 >>= λ magic. ok (magic == 0xdabb))

-- The counts of questions and of answers.
abbrev pub few_records : Bytes → Outcome ⊥ Bool
few_records d =
    be16 d 4 >>= λ questions. be16 d 6 >>= λ answers. ok (ltb questions 100 && ltb answers 100)

unfoldable pub verify_dns : Bytes → Outcome ⊥ Bool
verify_dns d = if ltb (length d) 12 then ok false else few_records d

unfoldable pub verify_protocol : Bytes → L7Protocol → Outcome ⊥ Bool
verify_protocol d http = verify_http d
verify_protocol d mysql = verify_mysql d
verify_protocol d redis = verify_redis d
verify_protocol d kafka = verify_kafka d
verify_protocol d dubbo = verify_dubbo d
verify_protocol d dns = verify_dns d
verify_protocol d _ = ok false

unfoldable pub looks_mysql : Bytes → Outcome ⊥ Bool
looks_mysql d =
    if leb 4 (length d) then (index d 0 >>= λ first. ok (first == 0 || first == 3)) else ok false

unfoldable pub looks_redis : Bytes → Outcome ⊥ Bool
unfolding is_resp
looks_redis d = if leb 1 (length d) then (index d 0 >>= λ first. ok (is_resp first)) else ok false

unfoldable pub looks_dubbo : Bytes → Outcome ⊥ Bool
looks_dubbo d = if leb 2 (length d) then (be16 d 0 >>= λ magic. ok (magic == 0xdabb)) else ok false

unfoldable pub looks_dns : Bytes → Outcome ⊥ Bool
looks_dns d = if leb 12 (length d) then few_records d else ok false

-- `if test { return proto }`, and then the rest.
unfoldable pub returns : Outcome ⊥ Bool → L7Protocol → Outcome ⊥ L7Protocol → Outcome ⊥ L7Protocol
returns test proto rest = test >>= λ b. if b then ok proto else rest

unfoldable pub detect_by_payload : Bytes → Outcome ⊥ L7Protocol
unfolding begins looks_mysql looks_redis looks_dubbo looks_dns returns
detect_by_payload d = returns (begins d (codes "HTTP")) http (
    returns (looks_mysql d) mysql (
      returns (looks_redis d) redis
        (returns (looks_dubbo d) dubbo (returns (looks_dns d) dns (ok l7_none)))))

-- The verification of what the ports suggest, if they suggest anything, and then the payload.
unfoldable pub detect_verified : Bytes → L7Protocol → Outcome ⊥ L7Protocol
unfolding detect_by_payload returns
detect_verified d l7_none = detect_by_payload d
detect_verified d proto = returns (verify_protocol d proto) proto (detect_by_payload d)

unfoldable pub detect_overridden :
    Bytes → ℕ → ℕ → Option L7Protocol → Option L7Protocol → Outcome ⊥ L7Protocol
detect_overridden d src dst (some proto) at_src = ok proto
detect_overridden d src dst none (some proto) = ok proto
detect_overridden d src dst none none = detect_verified d (detect_by_port src dst)

unfoldable pub detect_protocol : PortOverride → Bytes → ℕ → ℕ → Outcome ⊥ L7Protocol
detect_protocol port_override d src dst =
    if ltb (length d) 4
    then ok l7_none
    else detect_overridden d src dst (port_override dst) (port_override src)
