-- ===== src/Protocol/Hpack/Strings.antt =====
-- HPACK strings: what is read back, and on which inputs the decoder panics.
use native.Mathlib.Nat.{mod-eq_of_lt}
use ebpf_probe.Prelude.{
  ℕ, suc, ◌+◌, ◌-◌, ◌%◌, ◌^◌, ◌≤◌, ◌<◌, ◌≡◌, ◌↔◌, ap, ◌∙◌, sym, append_assoc, [], ◌∷◌, ◌++◌, ok,
  panic, Bytes, length, length-append, take-append, drop-append, arith,
}
use ebpf_probe.Protocol.Hpack.{decode_integer, decode_string}
use ebpf_probe.Protocol.Hpack.Integer.{
  read_as, read_as_iff, encode_integer_bounds, decode_integer-lt, encode_integer,
  decode_integer-encode_integer, decode_integer_bounds,
}

-- A string without Huffman coding: its length with a prefix of seven bits, then its bytes.
unfoldable pub encode_string : Bytes → Bytes
encode_string s = encode_integer 7 (length s) ++ s

decode_string_parts :
    (e s rest : Bytes)
    → decode_integer (e ++ (s ++ rest)) 7 ≡ (length s, length e)
    → 0 < length e
    → length e + length s < 2 ^ 64
    → decode_string (e ++ (s ++ rest)) ≡ ok (s, length e + length s)
unfolding decode_string
decode_string_parts e s rest h pos fits =
    let wrap : (length e + length s) % 2 ^ 64 ≡ length e + length s = mod-eq_of_lt fits in
    let width : length e + length s - length e ≡ length s = omega arith in
    ground (
      arith,
      length-append e (s ++ rest),
      length-append s rest,
      drop-append e (s ++ rest),
      take-append s rest,
    )

-- A string of fewer than 128 bytes is read back, with exactly its bytes consumed.
pub decode_string-encode_string :
    (s rest : Bytes)
    → length s < 128
    → decode_string (encode_string s ++ rest) ≡ ok (s, length (encode_string s))
unfolding encode_string
decode_string-encode_string s rest h =
    let e = encode_integer 7 (length s) in
    let same : read_as 7 (length s) ≡ length s = (read_as_iff 7 (length s) (omega arith)).1 h in
    ap decode_string (append_assoc e s rest)
    ∙ decode_string_parts e s rest
        (decode_integer-encode_integer 7 (length s) (s ++ rest) (omega arith)
            (rw same (omega arith))
          ∙ ap (λ (n : ℕ). (n, length e)) same)
        (encode_integer_bounds 7 (length s)).0 (omega (arith, encode_integer_bounds 7 (length s)))
    ∙ ap (λ (k : ℕ). ok (s, k)) (sym (length-append e s))

-- The decoder panics exactly on the strings whose length field, a 64-bit number that the sender
-- chooses, wraps `consumed + length` around; the input is shorter than 2^63 bytes.
pub decode_string_panics_iff :
    (b : ℕ) (d : Bytes)
    → suc (length d) < 2 ^ 63
    → (decode_string (b ∷ d) ≡ panic)
      ↔ (2 ^ 64 ≤ (decode_integer (b ∷ d) 7).1 + (decode_integer (b ∷ d) 7).0)
unfolding decode_string
decode_string_panics_iff b d long = (
  λ e. ground (arith, decode_integer_bounds b d 7, decode_integer-lt (b ∷ d)),
  λ e. ground (arith, decode_integer_bounds b d 7, decode_integer-lt (b ∷ d)),
)

-- A string that is read lies inside the input.
pub decode_string_bounds :
    (d : Bytes) {s : Bytes} {n : ℕ} → decode_string d ≡ ok (s, n) → (0 < n) × (n ≤ length d)
unfolding decode_string
decode_string_bounds [] h = ground arith
decode_string_bounds (b ∷ d) {s} {n} h = ground (arith, decode_integer_bounds b d 7)
