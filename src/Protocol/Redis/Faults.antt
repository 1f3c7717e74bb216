-- ===== src/Protocol/Redis/Faults.antt =====
-- Inputs on which the RESP parser goes wrong: negative lengths, and nil inside an array.
use ebpf_probe.Prelude.{
  ℕ, suc, ◌+◌, ◌*◌, ◌^◌, ◌≤◌, ◌<◌, ◌≡◌, refl, ap, ◌∙◌, ◌∷◌, ◌++◌, some, Outcome, panic, Bytes,
  length, take, take-append, length-append, arith, index_crlf,
}
use ebpf_probe.Prelude.Decimal.{negsuc, atoi, format_int, atoi-format_int_neg}
use ebpf_probe.Protocol.Redis.{
  Items, RedisError, bulk_body, array_body, make_elements, parse_resp, parse_elements,
  parse_redis_packet,
}
use ebpf_probe.Protocol.Redis.Wire.{
  index_crlf-line, format_int-OneLine, parse_array_at, parse_bulk_at, parse_bulk_first,
}

-- The length line `-n`.
abbrev pub negative_line : ℕ → Bytes → Bytes
negative_line k rest = (b'-' ∷ format_int (suc (suc k))) ++ (13 ∷ 10 ∷ rest)

module _ (k : ℕ) (rest : Bytes) (h : suc k < 2 ^ 63) where
  line_end : index_crlf (negative_line k rest) ≡ some (length (b'-' ∷ format_int (suc (suc k))))
  line_end =
      index_crlf-line (b'-' ∷ format_int (suc (suc k))) rest
        (omega arith, format_int-OneLine (suc (suc k)))

  line_number :
      atoi (take (length (b'-' ∷ format_int (suc (suc k)))) (negative_line k rest))
      ≡ some (negsuc (suc k))
  line_number =
      ap atoi (take-append (b'-' ∷ format_int (suc (suc k))) (13 ∷ 10 ∷ rest))
      ∙ atoi-format_int_neg (suc k) h

one_more : (d : Bytes) → 2 * length d + 1 ≡ suc (2 * length d)
one_more d = omega arith

-- The slice runs backwards, or to an index below 0.
bulk_body_negative :
    (d : Bytes) (o k : ℕ) → o ≤ length d + k → bulk_body d o (some (negsuc (suc k))) ≡ panic
unfolding bulk_body
bulk_body_negative d o k fits = ground arith

array_body_negative :
    (d : Bytes) (p : ℕ → ℕ → Outcome RedisError Items) (o k : ℕ)
    → array_body d p o (some (negsuc (suc k))) ≡ panic
unfolding array_body make_elements
array_body_negative d p o k = refl

-- A bulk string or an array that announces a length from -2 down to -2^63 crashes the parser, whatever
-- follows the length.
pub negative_length_panics :
    (k : ℕ) (rest : Bytes)
    → suc k < 2 ^ 63
    → (parse_redis_packet (b'$' ∷ negative_line k rest) ≡ panic)
      × (parse_redis_packet (b'*' ∷ negative_line k rest) ≡ panic)
unfolding parse_redis_packet
negative_length_panics k rest h =
    let s = negative_line k rest in
    let e = length (b'-' ∷ format_int (suc (suc k))) in
    (
      ap (λ (f : ℕ). parse_resp f (b'$' ∷ s)) (one_more (b'$' ∷ s))
          ∙ parse_bulk_first (2 * length (b'$' ∷ s)) s
          ∙ parse_bulk_at (b'$' ∷ s) s e (line_end k rest h)
          ∙ ap (bulk_body (b'$' ∷ s) (1 + e + 2)) (line_number k rest h)
          ∙ bulk_body_negative (b'$' ∷ s) (1 + e + 2) k
              (omega (arith, length-append (b'-' ∷ format_int (suc (suc k))) (13 ∷ 10 ∷ rest))),
      ap (λ (f : ℕ). parse_resp f (b'*' ∷ s)) (one_more (b'*' ∷ s))
          ∙ parse_array_at (2 * length (b'*' ∷ s)) s e (line_end k rest h)
          ∙ ap
              (array_body (b'*' ∷ s) (λ o n. parse_elements (2 * length (b'*' ∷ s)) (b'*' ∷ s) o n)
                (1 + e + 2))
              (line_number k rest h)
          ∙ array_body_negative (b'*' ∷ s)
              (λ o n. parse_elements (2 * length (b'*' ∷ s)) (b'*' ∷ s) o n) (1 + e + 2) k,
    )
