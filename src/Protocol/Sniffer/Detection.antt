-- ===== src/Protocol/Sniffer/Detection.antt =====
-- What DetectProtocol answers, and on which inputs it crashes.
use ebpf_probe.Prelude.{
  ℕ, ◌≤◌, ◌≡◌, ◌≢◌, ◌↔◌, refl, ap, inl, inr, Bool, true, false, List, [], ◌∷◌, Outcome, err, codes,
  Option, none, some, ok, panic, Bytes, length, get_or, arith, ltb, if◌then◌else◌, Bool-cases,
}
use ebpf_probe.Protocol.Sniffer.{
  L7Protocol, l7_none, http, https, http2, mysql, redis, kafka, dubbo, dns, PortOverride,
  is_http_port, detect_by_port, methods, begins, followed, any_method, verify_http, verify_redis,
  verify_kafka, verify_dubbo, verify_dns, looks_mysql, looks_redis, looks_dubbo, looks_dns, returns,
  verify_mysql, verify_protocol, detect_by_payload, detect_verified, detect_overridden,
  detect_protocol,
}

-- The ports suggest the same in both directions of a connection.
detect_by_port_swap : (src dst : ℕ) → detect_by_port src dst ≡ detect_by_port dst src
unfolding detect_by_port is_http_port
detect_by_port_swap src dst = ground arith

overridden_swap :
    (d : Bytes) (src dst : ℕ) (p : Option L7Protocol)
    → detect_overridden d src dst p p ≡ detect_overridden d dst src p p
unfolding detect_overridden
overridden_swap d src dst (some proto) = refl
overridden_swap d src dst none = ap (detect_verified d) (detect_by_port_swap src dst)

-- The two directions of a connection get the same answer on the same payload, if the overrides of
-- its two ports agree.
pub detect_protocol_swap :
    (port_override : PortOverride) (d : Bytes) (src dst : ℕ)
    → port_override src ≡ port_override dst
    → detect_protocol port_override d src dst ≡ detect_protocol port_override d dst src
unfolding detect_protocol
detect_protocol_swap port_override d src dst same = rw same (
    ap (λ r. if ltb (length d) 4 then ok l7_none else r)
      (overridden_swap d src dst (port_override dst)))

verify_mysql_panics :
    (d : Bytes) → 4 ≤ length d → (verify_mysql d ≡ panic) ↔ (length d ≡ 4) × (get_or d 0 0 ≡ 0)
unfolding verify_mysql
verify_mysql_panics d h = ground arith

-- A test before the rest panics if one of the two does.
returns_panics :
    (test : Outcome ⊥ Bool) (p : L7Protocol) (rest : Outcome ⊥ L7Protocol)
    → rest ≢ panic
    → (returns test p rest ≡ panic) ↔ (test ≡ panic)
unfolding returns
returns_panics (ok true) p rest safe = (λ e. absurd (cc), λ e. absurd (cc))
returns_panics (ok false) p rest safe = (λ e. absurd (safe e), λ e. absurd (cc))
returns_panics (err e) p rest safe = absurd e
returns_panics panic p rest safe = (λ e. refl, λ e. refl)

returns_safe :
    (test : Outcome ⊥ Bool) (p : L7Protocol) (rest : Outcome ⊥ L7Protocol)
    → test ≢ panic
    → rest ≢ panic
    → returns test p rest ≢ panic
returns_safe test p rest fine safe e = fine ((returns_panics test p rest safe).0 e)

begins_safe : (d word : Bytes) → begins d word ≢ panic
unfolding begins
begins_safe d word = ground arith

followed_safe : (d method : Bytes) → followed d method ≢ panic
unfolding followed begins
followed_safe d method = ground arith

any_method_safe : (d : Bytes) (methods : List Bytes) → any_method d methods ≢ panic
unfolding any_method
any_method_safe d [] = cc
any_method_safe d (m ∷ methods) = ground (arith, followed_safe d m, any_method_safe d methods)

verify_http_safe : (d : Bytes) → verify_http d ≢ panic
unfolding verify_http
verify_http_safe d = ground (arith, any_method_safe d methods, begins_safe d (codes "HTTP"))

verify_redis_safe : (d : Bytes) → verify_redis d ≢ panic
unfolding verify_redis
verify_redis_safe d = ground arith

verify_kafka_safe : (d : Bytes) → verify_kafka d ≢ panic
unfolding verify_kafka
verify_kafka_safe d = ground arith

verify_dubbo_safe : (d : Bytes) → verify_dubbo d ≢ panic
unfolding verify_dubbo
verify_dubbo_safe d = ground arith

verify_dns_safe : (d : Bytes) → verify_dns d ≢ panic
unfolding verify_dns
verify_dns_safe d = ground arith

looks_mysql_safe : (d : Bytes) → looks_mysql d ≢ panic
unfolding looks_mysql
looks_mysql_safe d = ground arith

looks_redis_safe : (d : Bytes) → looks_redis d ≢ panic
unfolding looks_redis
looks_redis_safe d = ground arith

looks_dubbo_safe : (d : Bytes) → looks_dubbo d ≢ panic
unfolding looks_dubbo
looks_dubbo_safe d = ground arith

looks_dns_safe : (d : Bytes) → looks_dns d ≢ panic
unfolding looks_dns
looks_dns_safe d = ground arith

detect_by_payload_safe : (d : Bytes) → detect_by_payload d ≢ panic
unfolding detect_by_payload
detect_by_payload_safe d =
    returns_safe (begins d (codes "HTTP")) http _ (begins_safe d (codes "HTTP")) (
      returns_safe (looks_mysql d) mysql _ (looks_mysql_safe d) (
        returns_safe (looks_redis d) redis _ (looks_redis_safe d) (
          returns_safe (looks_dubbo d) dubbo _ (looks_dubbo_safe d)
            (returns_safe (looks_dns d) dns _ (looks_dns_safe d) (cc)))))

verified_panics :
    (d : Bytes) (p : L7Protocol)
    → 4 ≤ length d
    → (detect_verified d p ≡ panic) ↔ (length d ≡ 4) × (get_or d 0 0 ≡ 0) × (p ≡ mysql)
unfolding detect_verified verify_protocol
verified_panics d mysql h =
    let through =
      returns_panics (verify_mysql d) mysql (detect_by_payload d) (detect_by_payload_safe d) in
    let four = verify_mysql_panics d h in
    (λ e. let r = four.0 (through.0 e) in (r.0, r.1, refl), λ e. through.1 (four.1 (e.0, e.1)))
verified_panics d l7_none h = (λ e. absurd (detect_by_payload_safe d e), λ e. absurd (cc (e.2)))
verified_panics d http h = (
  λ e.
      absurd
        (returns_safe (verify_http d) http _ (verify_http_safe d) (detect_by_payload_safe d) e),
  λ e. absurd (cc (e.2)),
)
verified_panics d redis h = (
  λ e.
      absurd
        (returns_safe (verify_redis d) redis _ (verify_redis_safe d) (detect_by_payload_safe d) e),
  λ e. absurd (cc (e.2)),
)
verified_panics d kafka h = (
  λ e.
      absurd
        (returns_safe (verify_kafka d) kafka _ (verify_kafka_safe d) (detect_by_payload_safe d) e),
  λ e. absurd (cc (e.2)),
)
verified_panics d dubbo h = (
  λ e.
      absurd
        (returns_safe (verify_dubbo d) dubbo _ (verify_dubbo_safe d) (detect_by_payload_safe d) e),
  λ e. absurd (cc (e.2)),
)
verified_panics d dns h = (
  λ e. absurd (returns_safe (verify_dns d) dns _ (verify_dns_safe d) (detect_by_payload_safe d) e),
  λ e. absurd (cc (e.2)),
)
verified_panics d https h = (
  λ e. absurd (returns_safe (ok false) https _ (cc) (detect_by_payload_safe d) e),
  λ e. absurd (cc (e.2)),
)
verified_panics d http2 h = (
  λ e. absurd (returns_safe (ok false) http2 _ (cc) (detect_by_payload_safe d) e),
  λ e. absurd (cc (e.2)),
)

overridden_panics :
    (d : Bytes) (src dst : ℕ) (p q : Option L7Protocol)
    → 4 ≤ length d
    → (detect_overridden d src dst p q ≡ panic)
      ↔ (length d ≡ 4)
        × (get_or d 0 0 ≡ 0)
        × (detect_by_port src dst ≡ mysql)
        × (p ≡ none)
        × (q ≡ none)
unfolding detect_overridden
overridden_panics d src dst (some p) q h = (λ e. absurd (cc), λ e. absurd (cc (e.3)))
overridden_panics d src dst none (some q) h = (λ e. absurd (cc), λ e. absurd (cc (e.4)))
overridden_panics d src dst none none h =
    let v = verified_panics d (detect_by_port src dst) h in
    (λ e. let f = v.0 e in (f.0, f.1, f.2, refl, refl), λ e. v.1 (e.0, e.1, e.2))

-- DetectProtocol crashes exactly on a payload of four bytes, the first of them 0, where neither port
-- is overridden and the ports suggest MySQL.
pub detect_protocol_panics_iff :
    (port_override : PortOverride) (d : Bytes) (src dst : ℕ)
    → (detect_protocol port_override d src dst ≡ panic)
      ↔ (length d ≡ 4)
        × (get_or d 0 0 ≡ 0)
        × (detect_by_port src dst ≡ mysql)
        × (port_override dst ≡ none)
        × (port_override src ≡ none)
unfolding detect_protocol
detect_protocol_panics_iff port_override d src dst = elim (Bool-cases (ltb (length d) 4)) [
  | inl short ↦ rw short (λ e. absurd (cc), λ e. absurd (ground (arith, short, e.0)))
  | inr long ↦
      rw long
        (overridden_panics d src dst (port_override dst) (port_override src) (ground (arith, long)))
]
