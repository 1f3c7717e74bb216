-- ===== src/Protocol/Hpack/Integer.antt =====
-- HPACK integers against RFC 7541, section 5.1.
use native.Mathlib.Numerals.{towards_suc}
use native.Mathlib.Nat.{mod-eq_of_lt, pow-suc}
use native.Mathlib.Decide.{dec_lt}
use mathlib.Core.Path.{ap₂}
use ebpf_probe.Prelude.{
  ℕ, zero, suc, ◌+◌, ◌-◌, ◌*◌, ◌/◌, ◌%◌, ◌^◌, ◌≤◌, ◌<◌, ◌≡◌, refl, ◌↔◌, ap, ◌∙◌, inl, inr,
  Bool-cases, lt→ltb, ge→ltb, ltb→lt, false, [], ◌∷◌, ◌++◌, Bytes, length, arith, ltb,
  if◌then◌else◌,
}
use ebpf_probe.Protocol.Hpack.{integer_loop, decode_integer}

-- Seven bits a byte; `fuel` rounds are enough for a number below 128^(fuel + 1).
unfoldable pub encode_rest : ℕ → ℕ → Bytes
encode_rest zero m = m ∷ []
encode_rest (suc f) m =
    let more = encode_rest f (m / 128) in if ltb m 128 then m ∷ [] else (m % 128 + 128) ∷ more

-- An integer of 64 bits with a prefix of `prefix` bits.
unfoldable pub encode_integer : ℕ → ℕ → Bytes
encode_integer prefix n =
    if ltb n (2 ^ prefix - 1)
    then n ∷ []
    else (2 ^ prefix - 1) ∷ encode_rest 9 (n - (2 ^ prefix - 1))

mul_split : (m p : ℕ) → m * p ≡ m / 128 * (128 * p) + m % 128 * p
mul_split m p =
    let parts : m ≡ m / 128 * 128 + m % 128 = omega arith in
    omega (arith, ap (λ (t : ℕ). t * p) parts)

-- A round of the loop adds without wrapping around as long as the whole sum fits.
no_wrap : (m r p : ℕ) → r + m * p < 2 ^ 64 → (r + (m % 128 * p) % 2 ^ 64) % 2 ^ 64 ≡ r + m % 128 * p
no_wrap m r p h = omega (arith, mul_split m p)

shift_seven : (s : ℕ) → 2 ^ (s + 7) ≡ 128 * 2 ^ s
shift_seven s = simp towards_suc (omega arith)

-- What is left of `m` counts 128 times as much, seven bits further.
sum_shift : (r m s : ℕ) → r + m % 128 * 2 ^ s + m / 128 * 2 ^ (s + 7) ≡ r + m * 2 ^ s
sum_shift r m s = omega (arith, ap (λ (t : ℕ). m / 128 * t) (shift_seven s), mul_split m (2 ^ s))

low_bits : (m : ℕ) → (m % 128 + 128) % 128 ≡ m % 128
low_bits m = omega arith

integer_loop_last :
    (m r s o : ℕ) (rest : Bytes)
    → m < 128
    → r + m * 2 ^ s < 2 ^ 64
    → integer_loop (m ∷ rest) r s o ≡ (r + m * 2 ^ s, o + 1)
unfolding integer_loop
integer_loop_last m r s o rest h fits =
    let small : m % 128 ≡ m = omega arith in
    rw (lt→ltb m 128 h)
      (ap (λ (t : ℕ). (t, o + 1)) (no_wrap m r (2 ^ s) fits ∙ ap (λ (t : ℕ). r + t * 2 ^ s) small))

integer_loop_more :
    (m r s o : ℕ) (rest : Bytes)
    → r + m * 2 ^ s < 2 ^ 64
    → integer_loop ((m % 128 + 128) ∷ rest) r s o
      ≡ integer_loop rest (r + m % 128 * 2 ^ s) (s + 7) (o + 1)
unfolding integer_loop
integer_loop_more m r s o rest fits =
    rw (ge→ltb (m % 128 + 128) 128 (omega arith), low_bits m, no_wrap m r (2 ^ s) fits)

integer_loop-encode_rest :
    (f m r s o : ℕ) (rest : Bytes)
    → m < 128 ^ suc f
    → r + m * 2 ^ s < 2 ^ 64
    → integer_loop (encode_rest f m ++ rest) r s o ≡ (r + m * 2 ^ s, o + length (encode_rest f m))
unfolding encode_rest
integer_loop-encode_rest zero m r s o rest h fits =
    integer_loop_last m r s o rest (omega arith) fits
integer_loop-encode_rest (suc f) m r s o rest h fits = elim (Bool-cases (ltb m 128)) [
  | inl small ↦ rw small (integer_loop_last m r s o rest (ltb→lt m 128 small) fits)
  | inr large ↦ rw large (
      integer_loop_more m r s o (encode_rest f (m / 128) ++ rest) fits
      ∙ integer_loop-encode_rest f (m / 128) (r + m % 128 * 2 ^ s) (s + 7) (o + 1) rest
          (omega (arith, pow-suc 128 (suc f))) (omega (arith, sum_shift r m s))
      ∙ ap₂ (λ (a b : ℕ). (a, b)) (sum_shift r m s) (omega arith))
]

-- The first shift of the loop is the prefix, where the RFC shifts by 0: an integer that needs more
-- than the prefix is read with its excess multiplied by 2^prefix.
abbrev pub read_as : ℕ → ℕ → ℕ
read_as prefix n =
    if ltb n (2 ^ prefix - 1) then n else 2 ^ prefix - 1 + (n - (2 ^ prefix - 1)) * 2 ^ prefix

pow_pos : (n : ℕ) → 0 < 2 ^ n
pow_pos zero = omega arith
pow_pos (suc n) = omega (arith, pow-suc 2 n, pow_pos n)

decode_integer_prefix :
    (p prefix n : ℕ) (d : Bytes)
    → 2 ^ prefix ≡ p
    → n < p - 1
    → decode_integer (n ∷ d) prefix ≡ (n, 1)
unfolding decode_integer
decode_integer_prefix p prefix n d e h =
    let small : n % p ≡ n = mod-eq_of_lt (omega arith) in rw (e, small, lt→ltb n (p - 1) h)

decode_integer_full :
    (p prefix : ℕ) (d : Bytes)
    → 2 ^ prefix ≡ p
    → 0 < p
    → decode_integer ((p - 1) ∷ d) prefix ≡ integer_loop d (p - 1) prefix 1
unfolding decode_integer
decode_integer_full p prefix d e h =
    let small : (p - 1) % p ≡ p - 1 = mod-eq_of_lt (omega arith) in
    rw (e, small, ge→ltb (p - 1) (p - 1) (omega arith))

-- What the decoder reads from the RFC's encoding of an integer below 2^64: exactly its bytes, and the
-- value of `read_as`, provided that this fits in 64 bits.
pub decode_integer-encode_integer :
    (prefix n : ℕ) (rest : Bytes)
    → n < 2 ^ 64
    → read_as prefix n < 2 ^ 64
    → decode_integer (encode_integer prefix n ++ rest) prefix
      ≡ (read_as prefix n, length (encode_integer prefix n))
unfolding encode_integer
decode_integer-encode_integer prefix n rest h fits = elim (Bool-cases (ltb n (2 ^ prefix - 1))) [
  | inl small ↦
      rw small
        (decode_integer_prefix (2 ^ prefix) prefix n rest refl (ltb→lt n (2 ^ prefix - 1) small))
  | inr large ↦ rw large (
      decode_integer_full (2 ^ prefix) prefix (encode_rest 9 (n - (2 ^ prefix - 1)) ++ rest) refl
        (pow_pos prefix)
      ∙ integer_loop-encode_rest 9 (n - (2 ^ prefix - 1)) (2 ^ prefix - 1) prefix 1 rest
          (omega arith) (rw large at fits)
      ∙ ap₂ (λ (a b : ℕ). (a, b)) refl (omega arith))
]

grows : (k p : ℕ) → 2 ≤ p → 0 < k → k < k * p
grows k p two pos = grind arith

two_le_pow : (n : ℕ) → 0 < n → 2 ≤ 2 ^ n
two_le_pow zero h = absurd (omega arith)
two_le_pow (suc n) h = omega (arith, pow-suc 2 n, pow_pos n)

exact_iff :
    (p n : ℕ) → 2 ≤ p → ((if ltb n (p - 1) then n else p - 1 + (n - (p - 1)) * p) ≡ n) ↔ (n < p)
exact_iff p n two = elim (Bool-cases (ltb n (p - 1))) [
  | inl small ↦ rw small (λ _. omega (arith, ltb→lt n (p - 1) small), λ _. refl)
  | inr large ↦ rw large (
    λ (e : p - 1 + (n - (p - 1)) * p ≡ n). (elim (dec_lt n p) [
      | yes lt ↦ lt
      | no ge ↦ absurd (omega (arith, grows (n - (p - 1)) p two (omega arith)))
    ]),
    λ (lt : n < p).
        (let none_left : n - (p - 1) ≡ 0 = omega (arith, ltb_false n (p - 1) large) in
          rw none_left (omega (arith, ltb_false n (p - 1) large))),
  )
]
  where
    ltb_false : (a b : ℕ) → ltb a b ≡ false → b ≤ a
    ltb_false a b h = ground arith

-- With a prefix of at least one bit, the value that is read from the encoding of n (`read_as`) is n
-- exactly if n is below 2^prefix.
pub read_as_iff : (prefix n : ℕ) → 0 < prefix → (read_as prefix n ≡ n) ↔ (n < 2 ^ prefix)
read_as_iff prefix n h = exact_iff (2 ^ prefix) n (two_le_pow prefix h)

-- Reading never runs past the input, and takes at least one byte of a non-empty one.
integer_loop_bounds :
    (d : Bytes) (r s o : ℕ)
    → (o ≤ (integer_loop d r s o).1) × ((integer_loop d r s o).1 ≤ o + length d)
unfolding integer_loop
integer_loop_bounds [] r s o = omega arith
integer_loop_bounds (b ∷ d) r s o =
    ground
      (arith, integer_loop_bounds d ((r + (b % 128 * 2 ^ s) % 2 ^ 64) % 2 ^ 64) (s + 7) (o + 1))

pub decode_integer_bounds :
    (b : ℕ) (d : Bytes) (prefix : ℕ)
    → (0 < (decode_integer (b ∷ d) prefix).1) × ((decode_integer (b ∷ d) prefix).1 ≤ suc (length d))
unfolding decode_integer
decode_integer_bounds b d prefix = ground (arith, integer_loop_bounds d (b % 2 ^ prefix) prefix 1)

-- A 64-bit integer takes at most eleven bytes.
encode_rest_short : (f m : ℕ) → length (encode_rest f m) ≤ suc f
unfolding encode_rest
encode_rest_short zero m = omega arith
encode_rest_short (suc f) m = ground (arith, encode_rest_short f (m / 128))

pub encode_integer_bounds :
    (prefix n : ℕ)
    → (0 < length (encode_integer prefix n)) × (length (encode_integer prefix n) ≤ 11)
unfolding encode_integer
encode_integer_bounds prefix n = ground (arith, encode_rest_short 9 (n - (2 ^ prefix - 1)))

integer_loop-lt : (d : Bytes) (r s o : ℕ) → r < 2 ^ 64 → (integer_loop d r s o).0 < 2 ^ 64
unfolding integer_loop
integer_loop-lt [] r s o h = h
integer_loop-lt (b ∷ d) r s o h =
    ground (arith, integer_loop-lt d ((r + (b % 128 * 2 ^ s) % 2 ^ 64) % 2 ^ 64) (s + 7) (o + 1))

pub decode_integer-lt : (d : Bytes) → (decode_integer d 7).0 < 2 ^ 64
unfolding decode_integer
decode_integer-lt [] = omega arith
decode_integer-lt (b ∷ d) = ground (arith, integer_loop-lt d (b % 128) 7 1)
