-- ===== src/Protocol/Redis/Wire.antt =====
-- RESP as an encoder, the size that calculateRESPSize gives it, and the parsing of its lines.
use ebpf_probe.Prelude.{
  ℕ, zero, suc, ◌+◌, ◌-◌, ◌/◌, ◌%◌, ◌^◌, ◌≤◌, ◌<◌, ◌≡◌, ◌≢◌, refl, ap, ◌∙◌, true, [], ◌∷◌, ◌++◌,
  Option, none, some, Outcome, ok, err, Bytes, All, length, length-append, length-drop, drop-drop,
  take-append, drop-append, drop-one_more, take, drop, arith, ge→ltb, index_crlf,
}
use ebpf_probe.Prelude.Decimal.{pos, atoi, format_int, digits, atoi-format_int}
use ebpf_probe.Protocol.Redis.{
  Resp, Items, simple, bulk, array, bulk_nil, array_nil, nil, cons, RedisError,
  incomplete_bulk_length, is_simple_type, max_elements, bulk_body, parse_bulk, parse_simple,
  count_items, calculate_resp_size, items_size, array_body, make_elements, parse_resp,
  parse_elements,
}

-- No carriage return, so that the first one is that of the line's end.
abbrev pub OneLine : Bytes → Type 0
OneLine = All (λ c. c ≢ 13)

pub index_crlf-line :
    (s rest : Bytes) → OneLine s → index_crlf (s ++ (13 ∷ 10 ∷ rest)) ≡ some (length s)
unfolding index_crlf
index_crlf-line [] rest h = refl
index_crlf-line (c ∷ []) rest h = ground (arith, index_crlf-line [] rest tt)
index_crlf-line (c ∷ d ∷ s) rest h = ground (arith, index_crlf-line (d ∷ s) rest h.1)

digits-OneLine : (f n : ℕ) (out : Bytes) → OneLine out → OneLine (digits f n out)
unfolding digits
digits-OneLine zero n out h = (omega arith, h)
digits-OneLine (suc f) n out h = ground (arith, digits-OneLine f (n / 10) ((b'0' + n % 10) ∷ out))

pub format_int-OneLine : (n : ℕ) → OneLine (format_int n)
unfolding format_int
format_int-OneLine n = digits-OneLine n n [] tt

-- A value in RESP.
unfoldable mutual
  pub encode : Resp → Bytes
  encode (simple t s) = t ∷ (s ++ (13 ∷ 10 ∷ []))
  encode bulk_nil = b'$' ∷ b'-' ∷ b'1' ∷ 13 ∷ 10 ∷ []
  encode (bulk s) = b'$' ∷ (format_int (length s) ++ (13 ∷ 10 ∷ (s ++ (13 ∷ 10 ∷ []))))
  encode array_nil = b'*' ∷ b'-' ∷ b'1' ∷ 13 ∷ 10 ∷ []
  encode (array xs) = b'*' ∷ (format_int (count_items xs) ++ (13 ∷ 10 ∷ encode_items xs))

  pub encode_items : Items → Bytes
  encode_items nil = []
  encode_items (cons x xs) = encode x ++ encode_items xs

-- Simple values have one of the three type bytes and hold a single line; the elements of an array
-- are not nil.
abbrev pub NotNil : Resp → Type 0
NotNil bulk_nil = ⊥
NotNil array_nil = ⊥
NotNil _ = Unit {0}

abbrev mutual
  pub IsResp : Resp → Type 0
  IsResp (simple t s) = (is_simple_type t ≡ true) × OneLine s
  IsResp (bulk s) = Unit {0}
  IsResp bulk_nil = Unit {0}
  IsResp array_nil = Unit {0}
  IsResp (array xs) = AreElements xs

  pub AreElements : Items → Type 0
  AreElements nil = Unit {0}
  AreElements (cons x xs) = NotNil x × IsResp x × AreElements xs

mutual
  unfolding calculate_resp_size items_size encode encode_items

  pub size-encode : (v : Resp) → NotNil v → IsResp v → calculate_resp_size v ≡ length (encode v)
  size-encode (simple t s) h v = omega (arith, length-append s (13 ∷ 10 ∷ []))
  size-encode bulk_nil h v = absurd h
  size-encode (bulk s) h v = omega (
    arith,
    length-append (format_int (length s)) (13 ∷ 10 ∷ (s ++ (13 ∷ 10 ∷ []))),
    length-append s (13 ∷ 10 ∷ []),
  )
  size-encode array_nil h v = absurd h
  size-encode (array xs) h v = omega (
    arith,
    length-append (format_int (count_items xs)) (13 ∷ 10 ∷ encode_items xs),
    size-encode_items xs v,
  )

  size-encode_items : (xs : Items) → AreElements xs → items_size xs ≡ length (encode_items xs)
  size-encode_items nil h = refl
  size-encode_items (cons x xs) h = omega (
    arith,
    size-encode x h.0 h.1,
    size-encode_items xs h.2,
    length-append (encode x) (encode_items xs),
  )

-- calculateRESPSize gives the number of bytes of a value's RESP form, for a well-formed value
-- (`IsResp`) that is neither nil nor has a nil in it.
pub calculate_resp_size-encode :
    (v : Resp) → NotNil v → IsResp v → calculate_resp_size v ≡ length (encode v)
calculate_resp_size-encode v h w = size-encode v h w

pub encode_pos : (v : Resp) → 3 ≤ length (encode v)
unfolding encode
encode_pos (simple t s) = omega (arith, length-append s (13 ∷ 10 ∷ []))
encode_pos (bulk s) =
    omega (arith, length-append (format_int (length s)) (13 ∷ 10 ∷ (s ++ (13 ∷ 10 ∷ []))))
encode_pos (array xs) =
    omega (arith, length-append (format_int (count_items xs)) (13 ∷ 10 ∷ encode_items xs))
encode_pos _ = omega arith

pub count-le : (xs : Items) → count_items xs ≤ length (encode_items xs)
unfolding count_items encode_items
count-le nil = omega arith
count-le (cons x xs) =
    omega (arith, count-le xs, encode_pos x, length-append (encode x) (encode_items xs))

pub parse_simple-line :
    (t : ℕ) (s rest : Bytes) → OneLine s → parse_simple t (s ++ (13 ∷ 10 ∷ rest)) ≡ ok (simple t s)
unfolding parse_simple
parse_simple-line t s rest h =
    ground (arith, index_crlf-line s rest h, take-append s (13 ∷ 10 ∷ rest))

-- The bytes behind a length line.
drop-line : (t : ℕ) (s rest : Bytes) → drop (1 + length s + 2) (t ∷ (s ++ (13 ∷ 10 ∷ rest))) ≡ rest
drop-line t s rest =
    drop-drop (1 + length s) 2 (t ∷ (s ++ (13 ∷ 10 ∷ rest)))
    ∙ ap (drop 2)
        (drop-one_more (length s) (t ∷ (s ++ (13 ∷ 10 ∷ rest))) ∙ drop-append s (13 ∷ 10 ∷ rest))

bulk_body-line :
    (d s rest : Bytes) (offset : ℕ)
    → drop offset d ≡ s ++ (13 ∷ 10 ∷ rest)
    → length d < 2 ^ 60
    → bulk_body d offset (some (pos (length s))) ≡ ok (bulk s)
unfolding bulk_body
bulk_body-line d s rest offset h short =
    let width : offset + length s - offset ≡ length s = omega arith in
    ground (
      arith,
      width,
      length-drop offset d,
      length-append s (13 ∷ 10 ∷ rest),
      take-append s (13 ∷ 10 ∷ rest),
      ap (length {A = ℕ}) h,
    )

-- A length line is read as the number that it spells, and what follows starts behind it.
module _ (t n : ℕ) (rest : Bytes) (small : n < 2 ^ 63) where
  abbrev pub line : Bytes
  line = format_int n ++ (13 ∷ 10 ∷ rest)

  pub line_end : index_crlf line ≡ some (length (format_int n))
  line_end = index_crlf-line (format_int n) rest (format_int-OneLine n)

  pub line_number : atoi (take (length (format_int n)) line) ≡ some (pos n)
  line_number = ap atoi (take-append (format_int n) (13 ∷ 10 ∷ rest)) ∙ atoi-format_int n small

  pub line_rest : drop (1 + length (format_int n) + 2) (t ∷ line) ≡ rest
  line_rest = drop-line t (format_int n) rest

pub parse_bulk_at :
    (d s : Bytes) (e : ℕ)
    → index_crlf s ≡ some e
    → parse_bulk d s ≡ bulk_body d (1 + e + 2) (atoi (take e s))
unfolding parse_bulk
parse_bulk_at d s e h =
    ap
      (λ (o : Option ℕ). elim o as (λ _. Outcome RedisError Resp) [
        | none ↦ err incomplete_bulk_length
        | some e ↦ bulk_body d (1 + e + 2) (atoi (take e s))
      ])
      h

pub parse_bulk-line :
    (s rest : Bytes)
    → let text = format_int (length s) ++ (13 ∷ 10 ∷ (s ++ (13 ∷ 10 ∷ rest))) in
      length text < 2 ^ 45 → parse_bulk (b'$' ∷ text) text ≡ ok (bulk s)
parse_bulk-line s rest h =
    let n = length s in
    let body : Bytes = s ++ (13 ∷ 10 ∷ rest) in
    let text : Bytes = format_int n ++ (13 ∷ 10 ∷ body) in
    let e = length (format_int n) in
    let small : n < 2 ^ 63 =
      omega
        (arith, length-append (format_int n) (13 ∷ 10 ∷ body), length-append s (13 ∷ 10 ∷ rest)) in
    parse_bulk_at (b'$' ∷ text) text e (line_end b'$' n body small)
    ∙ ap (bulk_body (b'$' ∷ text) (1 + e + 2)) (line_number b'$' n body small)
    ∙ bulk_body-line (b'$' ∷ text) s rest (1 + e + 2) (line_rest b'$' n body small) (omega arith)

pub array_body-line :
    (d : Bytes) (elements : ℕ → ℕ → Outcome RedisError Items) (offset n : ℕ) (xs : Items)
    → n ≤ max_elements
    → elements offset n ≡ ok xs
    → array_body d elements offset (some (pos n)) ≡ ok (array xs)
unfolding array_body make_elements
array_body-line d elements offset n xs h e = rw (ge→ltb max_elements n h, e)

pub parse_array_at :
    (f : ℕ) (s : Bytes) (e : ℕ)
    → index_crlf s ≡ some e
    → parse_resp (suc f) (b'*' ∷ s)
      ≡ array_body
          (b'*' ∷ s)
          (λ offset n. parse_elements f (b'*' ∷ s) offset n)
          (1 + e + 2)
          (atoi (take e s))
unfolding parse_resp
parse_array_at f s e h = ground (arith, h)

-- One step of each kind, at a first byte that is known.
pub parse_simple_at :
    (f t : ℕ) (s : Bytes) → is_simple_type t ≡ true → parse_resp (suc f) (t ∷ s) ≡ parse_simple t s
unfolding parse_resp
parse_simple_at f t s h = rw h

pub parse_bulk_first : (f : ℕ) (s : Bytes) → parse_resp (suc f) (b'$' ∷ s) ≡ parse_bulk (b'$' ∷ s) s
unfolding parse_resp
parse_bulk_first f s = refl
