-- ===== src/Protocol/Redis/Total.antt =====
-- The RESP parser ends on every input, and the inputs that crash it.
use ebpf_probe.Prelude.{
  ℕ, zero, suc, ◌+◌, ◌-◌, ◌*◌, ◌≤◌, ◌<◌, ◌≢◌, [], ◌∷◌, Option, none, some, Outcome, err, >>=-ne-err,
  Bytes, Bool-cases, inl, inr, length, length-drop, drop, take, arith, leb, ◌==◌, index_crlf,
}
use ebpf_probe.Prelude.Decimal.{ℤ, pos, negsuc, atoi}
use ebpf_probe.Protocol.Redis.{
  incomplete_bulk_length, incomplete_array_length, Resp, Items, simple, RedisError, out_of_fuel,
  is_simple_type, bulk_body, parse_bulk, parse_simple, calculate_resp_size, array_body,
  make_elements, parse_resp, parse_elements, parse_redis_packet,
}

calculate_resp_size_pos : (x : Resp) → 3 ≤ calculate_resp_size x
unfolding calculate_resp_size
calculate_resp_size_pos (simple t s) = omega arith
calculate_resp_size_pos _ = omega arith

bulk_body_fuel : (d : Bytes) (o : ℕ) (n : Option ℤ) → bulk_body d o n ≢ err out_of_fuel
unfolding bulk_body
bulk_body_fuel d o none = cc
bulk_body_fuel d o (some (negsuc zero)) = cc
bulk_body_fuel d o (some (negsuc (suc k))) = ground arith
bulk_body_fuel d o (some (pos n)) = ground arith

-- Reading up to a line's end, with an error if there is none.
line_fuel :
    (o : Option ℕ) (e : RedisError) (k : ℕ → Outcome RedisError Resp)
    → e ≢ out_of_fuel
    → ((i : ℕ) → k i ≢ err out_of_fuel)
    → (elim o as (λ _. Outcome RedisError Resp) [ none ↦ err e | some i ↦ k i ]) ≢ err out_of_fuel
line_fuel none e k h next = λ eq. h (cc)
line_fuel (some i) e k h next = next i

parse_bulk_fuel : (d s : Bytes) → parse_bulk d s ≢ err out_of_fuel
unfolding parse_bulk
parse_bulk_fuel d s =
    line_fuel (index_crlf s) incomplete_bulk_length _ (cc)
      λ e. bulk_body_fuel d (1 + e + 2) (atoi (take e s))

parse_simple_fuel : (t : ℕ) (s : Bytes) → parse_simple t s ≢ err out_of_fuel
unfolding parse_simple
parse_simple_fuel t s = ground arith

array_body_fuel :
    (d : Bytes) (elements : ℕ → ℕ → Outcome RedisError Items) (o : ℕ) (n : Option ℤ)
    → ((k : ℕ) → elements o k ≢ err out_of_fuel)
    → array_body d elements o n ≢ err out_of_fuel
unfolding array_body make_elements
array_body_fuel d elements o none h = cc
array_body_fuel d elements o (some (negsuc zero)) h = cc
array_body_fuel d elements o (some (negsuc (suc k))) h = cc
array_body_fuel d elements o (some (pos n)) h = ground (arith, h n)

-- A first byte that is none of the five starts no value.
parse_resp_step :
    (f t : ℕ) (s : Bytes)
    → ((e n : ℕ) → parse_elements f (t ∷ s) (1 + e + 2) n ≢ err out_of_fuel)
    → parse_resp (suc f) (t ∷ s) ≢ err out_of_fuel
unfolding parse_resp
parse_resp_step f t s h = elim (Bool-cases (is_simple_type t)) [
  | inl a ↦ rw a (parse_simple_fuel t s)
  | inr a ↦ rw a (elim (Bool-cases (t == b'$')) [
    | inl b ↦ rw b (parse_bulk_fuel (t ∷ s) s)
    | inr b ↦ rw b (elim (Bool-cases (t == b'*')) [
      | inl c ↦ rw c (
          line_fuel (index_crlf s) incomplete_array_length _ (cc) λ e.
            array_body_fuel (t ∷ s) (λ o n. parse_elements f (t ∷ s) o n) (1 + e + 2)
              (atoi (take e s)) (h e))
      | inr c ↦ rw c (cc)
    ])
  ])
]

parse_elements_step :
    (f : ℕ) (d : Bytes) (offset n : ℕ)
    → (offset < length d → parse_resp f (drop offset d) ≢ err out_of_fuel)
    → ((x : Resp)
        → offset < length d
        → parse_elements f d (offset + calculate_resp_size x) (n - 1) ≢ err out_of_fuel)
    → parse_elements (suc f) d offset n ≢ err out_of_fuel
unfolding parse_elements
parse_elements_step f d offset n one more = elim (Bool-cases (n == 0)) [
  | inl a ↦ rw a (cc)
  | inr a ↦ rw a (elim (Bool-cases (leb (length d) offset)) [
    | inl b ↦ rw b (cc)
    | inr b ↦
        let inside : offset < length d = ground arith in
        rw b (
          >>=-ne-err (parse_resp f (drop offset d)) _ (one inside) λ x e.
            >>=-ne-err (parse_elements f d (offset + calculate_resp_size x) (n - 1)) _
              (more x inside) λ xs e'. cc)
  ])
]

parse_resp_nil : (f : ℕ) → parse_resp (suc f) [] ≢ err out_of_fuel
unfolding parse_resp
parse_resp_nil f = cc

mutual
  parse_resp_fuel : (f : ℕ) (d : Bytes) → 2 * length d < f → parse_resp f d ≢ err out_of_fuel
  parse_resp_fuel zero d h = absurd (omega arith)
  parse_resp_fuel (suc f) [] h = parse_resp_nil f
  parse_resp_fuel (suc f) (t ∷ s) h =
      parse_resp_step f t s λ e n. parse_elements_fuel f (t ∷ s) (1 + e + 2) n (omega arith)

  parse_elements_fuel :
      (f : ℕ) (d : Bytes) (offset n : ℕ)
      → 2 * (length d - offset) + 1 < f
      → parse_elements f d offset n ≢ err out_of_fuel
  parse_elements_fuel zero d offset n h = absurd (omega arith)
  parse_elements_fuel (suc f) d offset n h =
      parse_elements_step f d offset n
        (λ inside. parse_resp_fuel f (drop offset d) (omega (arith, length-drop offset d)))
        λ x inside.
          parse_elements_fuel f d (offset + calculate_resp_size x) (n - 1)
            (omega (arith, calculate_resp_size_pos x))

-- Parsing ends on every input: the fuel of the model is never used up.
pub parse_redis_packet_terminates : (d : Bytes) → parse_redis_packet d ≢ err out_of_fuel
unfolding parse_redis_packet
parse_redis_packet_terminates d = parse_resp_fuel (2 * length d + 1) d (omega arith)
