-- ===== src/Protocol/Redis/RoundTrip.antt =====
-- redis.go against RESP: a value that is written in RESP is read back, and calculateRESPSize is the
-- number of bytes that it takes.
use ebpf_probe.Prelude.{
  ℕ, zero, suc, ◌+◌, ◌-◌, ◌*◌, ◌^◌, ◌<◌, ◌≡◌, refl, ap, sym, ◌∙◌, append_assoc, true, [], ◌∷◌, ◌++◌,
  ok, Bytes, length, length-append, length-drop, drop-drop, drop-append, drop, arith, gt→leb,
  index_crlf,
}
use ebpf_probe.Prelude.Decimal.{atoi, format_int}
use ebpf_probe.Protocol.Redis.Wire.{
  parse_simple_at, parse_bulk_first, OneLine, NotNil, IsResp, AreElements, encode, encode_items,
  size-encode, encode_pos, count-le, line_end, line_number, line_rest, parse_simple-line,
  parse_bulk-line, array_body-line, parse_array_at,
}
use ebpf_probe.Protocol.Redis.{
  Resp, Items, simple, bulk, array, bulk_nil, array_nil, nil, cons, is_simple_type, count_items,
  calculate_resp_size, array_body, parse_resp, parse_elements, parse_redis_packet,
}

parse_elements_cons :
    (f : ℕ) (d : Bytes) (offset n : ℕ) (x : Resp) (xs : Items)
    → offset < length d
    → parse_resp f (drop offset d) ≡ ok x
    → parse_elements f d (offset + calculate_resp_size x) n ≡ ok xs
    → parse_elements (suc f) d offset (suc n) ≡ ok (cons x xs)
unfolding parse_elements
parse_elements_cons f d offset n x xs h e es =
    let pred : suc n - 1 ≡ n = omega arith in ground (arith, gt→leb (length d) offset h)

abbrev Reads : Resp → Type 0
Reads v =
    (f : ℕ) (rest : Bytes)
    → 2 * length (encode v) < f
    → length (encode v ++ rest) < 2 ^ 45
    → parse_resp f (encode v ++ rest) ≡ ok v

abbrev ReadsItems : Items → Type 0
ReadsItems xs =
    (f : ℕ) (d : Bytes) (offset : ℕ) (rest : Bytes)
    → 2 * length (encode_items xs) + 1 < f
    → drop offset d ≡ encode_items xs ++ rest
    → length d < 2 ^ 45
    → parse_elements f d offset (count_items xs) ≡ ok xs

Reads-simple : (t : ℕ) (s : Bytes) → is_simple_type t ≡ true → OneLine s → Reads (simple t s)
unfolding encode
Reads-simple t s h one zero rest lt short = absurd (omega arith)
Reads-simple t s h one (suc f) rest lt short =
    ap (λ (d : Bytes). parse_resp (suc f) (t ∷ d)) (append_assoc s (13 ∷ 10 ∷ []) rest)
    ∙ parse_simple_at f t (s ++ (13 ∷ 10 ∷ rest)) h
    ∙ parse_simple-line t s rest one

Reads-bulk : (s : Bytes) → Reads (bulk s)
unfolding encode
Reads-bulk s zero rest lt short = absurd (omega arith)
Reads-bulk s (suc f) rest lt short =
    let n = format_int (length s) in
    let text : Bytes = n ++ (13 ∷ 10 ∷ (s ++ (13 ∷ 10 ∷ rest))) in
    let same : (n ++ (13 ∷ 10 ∷ (s ++ (13 ∷ 10 ∷ [])))) ++ rest ≡ text = simp append_assoc in
    ap (λ (d : Bytes). parse_resp (suc f) (b'$' ∷ d)) same
    ∙ parse_bulk_first f text
    ∙ parse_bulk-line s rest (omega (arith, ap (length {A = ℕ}) same))

Reads-bulk_nil : Reads bulk_nil
unfolding encode parse_resp index_crlf atoi
Reads-bulk_nil zero rest lt short = absurd (omega arith)
Reads-bulk_nil (suc f) rest lt short = refl

Reads-array_nil : Reads array_nil
unfolding encode parse_resp index_crlf atoi
Reads-array_nil zero rest lt short = absurd (omega arith)
Reads-array_nil (suc f) rest lt short = refl

Reads-array : (xs : Items) → ReadsItems xs → Reads (array xs)
unfolding encode
Reads-array xs items zero rest lt short = absurd (omega arith)
Reads-array xs items (suc f) rest lt short =
    let n = count_items xs in
    let e = length (format_int n) in
    let body : Bytes = encode_items xs ++ rest in
    let text : Bytes = format_int n ++ (13 ∷ 10 ∷ body) in
    let same : (format_int n ++ (13 ∷ 10 ∷ encode_items xs)) ++ rest ≡ text = simp append_assoc in
    let size : length text < 2 ^ 45 = omega (arith, ap (length {A = ℕ}) same) in
    let small : n < 2 ^ 45 = omega (
      arith,
      count-le xs,
      length-append (format_int n) (13 ∷ 10 ∷ body),
      length-append (encode_items xs) rest,
    ) in
    ap (λ (d : Bytes). parse_resp (suc f) (b'*' ∷ d)) same
    ∙ parse_array_at f text e (line_end b'*' n body (omega arith))
    ∙ ap
        (array_body (b'*' ∷ text) (λ offset n. parse_elements f (b'*' ∷ text) offset n) (1 + e + 2))
        (line_number b'*' n body (omega arith))
    ∙ array_body-line (b'*' ∷ text) (λ offset n. parse_elements f (b'*' ∷ text) offset n)
        (1 + e + 2) n xs (omega arith)
        (items f (b'*' ∷ text) (1 + e + 2) rest
          (omega (arith, length-append (format_int n) (13 ∷ 10 ∷ encode_items xs)))
          (line_rest b'*' n body (omega arith)) (omega (arith, ap (length {A = ℕ}) same)))

ReadsItems-nil : ReadsItems nil
unfolding parse_elements count_items
ReadsItems-nil zero d offset rest lt at short = absurd (omega arith)
ReadsItems-nil (suc f) d offset rest lt at short = refl

-- The rest of the array starts where the size of its first element says.
next_element :
    (x : Resp) (xs : Items) (d rest : Bytes) (offset : ℕ)
    → NotNil x
    → IsResp x
    → drop offset d ≡ encode x ++ (encode_items xs ++ rest)
    → drop (offset + calculate_resp_size x) d ≡ encode_items xs ++ rest
next_element x xs d rest offset h w at =
    ap (λ (n : ℕ). drop (offset + n) d) (size-encode x h w)
    ∙ drop-drop offset (length (encode x)) d
    ∙ ap (drop (length (encode x))) at
    ∙ drop-append (encode x) (encode_items xs ++ rest)

ReadsItems-cons :
    (x : Resp) (xs : Items) → NotNil x → IsResp x → Reads x → ReadsItems xs → ReadsItems (cons x xs)
unfolding encode_items count_items
ReadsItems-cons x xs h w read reads zero d offset rest lt at short = absurd (omega arith)
ReadsItems-cons x xs h w read reads (suc f) d offset rest lt at short =
    let at_first : drop offset d ≡ encode x ++ (encode_items xs ++ rest) =
      at ∙ append_assoc (encode x) (encode_items xs) rest in
    let total : length d - offset ≡ length (encode x) + length (encode_items xs ++ rest) =
      sym (length-drop offset d)
      ∙ ap (length {A = ℕ}) at_first
      ∙ length-append (encode x) (encode_items xs ++ rest) in
    parse_elements_cons f d offset (count_items xs) x xs (omega (arith, encode_pos x))
      (ap (parse_resp f) at_first
        ∙ read f (encode_items xs ++ rest)
            (omega (arith, length-append (encode x) (encode_items xs)))
            (omega (arith, length-append (encode x) (encode_items xs ++ rest))))
      (reads f d (offset + calculate_resp_size x) rest
        (omega (arith, length-append (encode x) (encode_items xs), encode_pos x))
        (next_element x xs d rest offset h w at_first) short)

Reads-resp : (v : Resp) → IsResp v → Reads v
Reads-resp v = elim v as (λ v. IsResp v → Reads v) (λ xs. AreElements xs → ReadsItems xs) [
  | simple t s ↦ λ h. Reads-simple t s h.0 h.1
  | bulk s ↦ λ h. Reads-bulk s
  | bulk_nil ↦ λ h. Reads-bulk_nil
  | array_nil ↦ λ h. Reads-array_nil
  | array (xs → ih) ↦ λ h. Reads-array xs (ih h)
  | nil ↦ λ h. ReadsItems-nil
  | cons (x → ih) (xs → ihs) ↦ λ h. ReadsItems-cons x xs h.0 h.1 (ih h.1) (ihs h.2)
]

-- A well-formed RESP value (`IsResp`, which allows no nil inside an array) is read back from its
-- encoding, whatever bytes follow, of fewer than 2^45 bytes in all.
pub parse_redis_packet-encode :
    (v : Resp) (rest : Bytes)
    → IsResp v
    → length (encode v ++ rest) < 2 ^ 45
    → parse_redis_packet (encode v ++ rest) ≡ ok v
unfolding parse_redis_packet
parse_redis_packet-encode v rest h short =
    Reads-resp v h (2 * length (encode v ++ rest) + 1) rest
      (omega (arith, length-append (encode v) rest)) short
