-- ===== src/Protocol/Dubbo/Hessian/RoundTrip.antt =====
-- What is written value after value is read back by the same sequence of reads.
use ebpf_probe.Prelude.{
  ℕ, ◌+◌, ◌^◌, ◌<◌, ◌≡◌, refl, ap, ◌∙◌, append_assoc, All, List, [], ◌∷◌, ◌++◌, map, Outcome, ok,
  err, panic, Bytes, length, big_endian, length-big_endian, length-append, gt→leb, ge→ltb, arith,
  unsigned, IsInRange, signed-unsigned, unsigned_bound,
}
use ebpf_probe.Prelude.Decimal.{ℤ, pos}
use ebpf_probe.Prelude.Cursor.{
  At, At-start, At-append, At-big_endian, index-At, be32-At, be64-At, slice-At,
}
use ebpf_probe.Protocol.Dubbo.Hessian.{
  HessianError, Read, read_byte, read_int32, read_int64, string_body, read_string,
}

pub data Value : Type 0 where
  byte : ℕ → Value
  int32 : ℤ → Value
  int64 : ℤ → Value
  text : Bytes → Value

pub data Kind : Type 0 where
  a_byte : Kind
  an_int32 : Kind
  an_int64 : Kind
  a_text : Kind

abbrev pub kind_of : Value → Kind
kind_of (byte n) = a_byte
kind_of (int32 z) = an_int32
kind_of (int64 z) = an_int64
kind_of (text s) = a_text

unfoldable pub encode_value : Value → Bytes
encode_value (byte n) = n ∷ []
encode_value (int32 z) = big_endian 4 (unsigned (2 ^ 31) z)
encode_value (int64 z) = big_endian 8 (unsigned (2 ^ 63) z)
encode_value (text s) = big_endian 4 (length s) ++ s

unfoldable pub encode_values : List Value → Bytes
encode_values [] = []
encode_values (v ∷ values) = encode_value v ++ encode_values values

abbrev pub IsValue : Value → Type 0
IsValue (byte n) = n < 256
IsValue (int32 z) = IsInRange (2 ^ 31) z
IsValue (int64 z) = IsInRange (2 ^ 63) z
IsValue (text s) = length s < 2 ^ 31

abbrev as_value :
    {A : Type 0} → (A → Value) → Outcome HessianError A × ℕ → Outcome HessianError Value × ℕ
as_value f (ok a, o) = (ok (f a), o)
as_value f (err e, o) = (err e, o)
as_value f (panic, o) = (panic, o)

-- The method for a kind of value.
unfoldable pub read_value : Kind → Read Value
read_value a_byte d o = as_value byte (read_byte d o)
read_value an_int32 d o = as_value int32 (read_int32 d o)
read_value an_int64 d o = as_value int64 (read_int64 d o)
read_value a_text d o = as_value text (read_string d o)

abbrev cons_to :
    Value → Outcome HessianError (List Value) × ℕ → Outcome HessianError (List Value) × ℕ
cons_to v (ok values, o) = (ok (v ∷ values), o)
cons_to v (err e, o) = (err e, o)
cons_to v (panic, o) = (panic, o)

-- One read after the other on one decoder, up to the first that fails.
unfoldable pub then_read :
    Outcome HessianError Value × ℕ
    → (ℕ → Outcome HessianError (List Value) × ℕ)
    → Outcome HessianError (List Value) × ℕ
then_read (ok v, o) more = cons_to v (more o)
then_read (err e, o) more = (err e, o)
then_read (panic, o) more = (panic, o)

unfoldable pub read_values : List Kind → Read (List Value)
unfolding then_read read_value
read_values [] d o = (ok [], o)
read_values (k ∷ kinds) d o = then_read (read_value k d o) (λ o'. read_values kinds d o')

read_int32-At :
    (d : Bytes) (o : ℕ) (z : ℤ) (s : Bytes)
    → IsInRange (2 ^ 31) z
    → At d o (big_endian 4 (unsigned (2 ^ 31) z) ++ s)
    → read_int32 d o ≡ (ok z, o + 4)
unfolding read_int32
read_int32-At d o z s h here =
    let u = unsigned (2 ^ 31) z in
    let size = (At-big_endian d o 4 u s here).1 in
    rw (ge→ltb (length d) (o + 4) (omega (arith, size))) (
      rw (be32-At {E = HessianError} d o u s (unsigned_bound (2 ^ 31) z h) here)
        (rw (signed-unsigned (2 ^ 31) z h) refl))

read_int64-At :
    (d : Bytes) (o : ℕ) (z : ℤ) (s : Bytes)
    → IsInRange (2 ^ 63) z
    → At d o (big_endian 8 (unsigned (2 ^ 63) z) ++ s)
    → read_int64 d o ≡ (ok z, o + 8)
unfolding read_int64
read_int64-At d o z s h here =
    let u = unsigned (2 ^ 63) z in
    let size = (At-big_endian d o 8 u s here).1 in
    rw (ge→ltb (length d) (o + 8) (omega (arith, size))) (
      rw (be64-At {E = HessianError} d o u s (unsigned_bound (2 ^ 63) z h) here)
        (rw (signed-unsigned (2 ^ 63) z h) refl))

read_string-At :
    (d : Bytes) (o : ℕ) (t s : Bytes)
    → length t < 2 ^ 31
    → At d o (big_endian 4 (length t) ++ (t ++ s))
    → read_string d o ≡ (ok t, o + 4 + length t)
unfolding read_string string_body
read_string-At d o t s h here =
    let next = At-big_endian d o 4 (length t) (t ++ s) here in
    let size = next.1 in
    let long = length-append t s in
    let n : read_int32 d o ≡ (ok (pos (length t)), o + 4) =
      read_int32-At d o (pos (length t)) (t ++ s) h (unfold unsigned in here) in
    rw (gt→leb (length d) o (omega (arith, size))) (
      rw n (
        rw (ge→ltb (length d) (o + 4 + length t) (omega (arith, size, long)))
          (rw (slice-At {E = HessianError} d (o + 4) t s next) refl)))

read_value-At :
    (d : Bytes) (o : ℕ) (v : Value) (s : Bytes)
    → IsValue v
    → At d o (encode_value v ++ s)
    → read_value (kind_of v) d o ≡ (ok v, o + length (encode_value v))
unfolding read_value read_byte encode_value
read_value-At d o (byte n) s h here =
    let size = (At-append d o (n ∷ []) s here).1 in
    rw (gt→leb (length d) o (omega (arith, size)))
      (rw (index-At {E = HessianError} d o n s here) refl)
read_value-At d o (int32 z) s h here =
    rw (read_int32-At d o z s h here) (rw (length-big_endian 4 (unsigned (2 ^ 31) z)) refl)
read_value-At d o (int64 z) s h here =
    rw (read_int64-At d o z s h here) (rw (length-big_endian 8 (unsigned (2 ^ 63) z)) refl)
read_value-At d o (text t) s h here =
    rw (read_string-At d o t s h (rw (append_assoc (big_endian 4 (length t)) t s) at here)) (
      ap (λ (k : ℕ). (ok (text t), k))
        (omega (arith, length-append (big_endian 4 (length t)) t, length-big_endian 4 (length t))))

read_values-At :
    (d : Bytes) (o : ℕ) (values : List Value) (s : Bytes)
    → All IsValue values
    → At d o (encode_values values ++ s)
    → read_values (map kind_of values) d o ≡ (ok values, o + length (encode_values values))
unfolding read_values encode_values
read_values-At d o [] s h here = ap (λ (k : ℕ). (ok [], k)) (omega arith)
read_values-At d o (v ∷ values) s h here =
    let x = encode_value v in
    let rest = encode_values values in
    let first : At d o (x ++ (rest ++ s)) = rw (append_assoc x rest s) at here in
    rw (read_value-At d o v (rest ++ s) h.0 first) (
      rw (read_values-At d (o + length x) values s h.1 (At-append d o x (rest ++ s) first))
        (ap (λ (k : ℕ). (ok (v ∷ values), k)) (omega (arith, length-append x rest))))

-- Values written one after the other, whatever follows, are read back in order by the methods of
-- their kinds, and the offset is then behind them; integers are those of their types, bytes below
-- 256 and texts shorter than 2^31 bytes.
pub read_values-encode :
    (values : List Value) (rest : Bytes)
    → All IsValue values
    → read_values (map kind_of values) (encode_values values ++ rest) 0
      ≡ (ok values, length (encode_values values))
read_values-encode values rest h =
    read_values-At (encode_values values ++ rest) 0 values rest h
      (At-start (encode_values values ++ rest))
    ∙ ap (λ (k : ℕ). (ok values, k)) (omega arith)
