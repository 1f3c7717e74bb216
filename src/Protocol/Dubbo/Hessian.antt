-- ===== src/Protocol/Dubbo/Hessian.antt =====
-- dubbo.go: Hessian2Decoder, whose state is the offset into its bytes. A read returns its result
-- and the offset that it leaves.
pub mod RoundTrip
pub mod Bounds
use ebpf_probe.Prelude.{
  ℕ, zero, suc, ◌+◌, ◌*◌, ◌^◌, ◌≤◌, ◌<◌, ◌≡◌, ◌≢◌, refl, ap, sym, ◌∙◌, append_assoc, List, [], ◌∷◌,
  ◌++◌, Outcome, ok, err, panic, Bytes, index, slice, be32, be64, length, big_endian,
  length-big_endian, length-append, ltb, leb, ge→ltb, lt→ltb, if◌then◌else◌, arith, signed,
  unsigned, IsInRange, signed-unsigned, unsigned_bound,
}
use ebpf_probe.Prelude.Decimal.{ℤ, pos, negsuc}
use ebpf_probe.Prelude.Cursor.{
  At, At-append, At-cons, At-big_endian, At-start, index-At, be32-At, be64-At, slice-At,
}

-- The error messages.
pub data HessianError : Type 0 where
  end_of_data : HessianError
  short_int32 : HessianError
  short_int64 : HessianError
  invalid_string_length : HessianError
  short_string : HessianError

-- What a method of the decoder does to the offset.
abbrev pub Read : Type 0 → Type 0
Read A = Bytes → ℕ → Outcome HessianError A × ℕ

-- The result under a function, for the conversions.
abbrev with_result : {A B : Type 0} → (A → B) → Outcome HessianError A → Outcome HessianError B
with_result f (ok a) = ok (f a)
with_result f (err e) = err e
with_result f panic = panic

unfoldable pub read_byte : Read ℕ
read_byte d o = if leb (length d) o then (err end_of_data, o) else (index d o, o + 1)

unfoldable pub read_int32 : Read ℤ
unfolding signed
read_int32 d o =
    if ltb (length d) (o + 4)
    then (err short_int32, o)
    else (with_result (signed (2 ^ 31)) (be32 d o), o + 4)

unfoldable pub read_int64 : Read ℤ
unfolding signed
read_int64 d o =
    if ltb (length d) (o + 8)
    then (err short_int64, o)
    else (with_result (signed (2 ^ 63)) (be64 d o), o + 8)

-- The characters, once the length has been read up to `o`.
unfoldable pub string_body : Bytes → Outcome HessianError ℤ × ℕ → Outcome HessianError Bytes × ℕ
string_body d (ok (pos n), o) =
    if ltb (length d) (o + n) then (err short_string, o) else (slice d o (o + n), o + n)
string_body d (ok (negsuc n), o) = (err invalid_string_length, o)
string_body d (err e, o) = (err e, o)
string_body d (panic, o) = (panic, o)

unfoldable pub read_string : Read Bytes
read_string d o = if leb (length d) o then (err end_of_data, o) else string_body d (read_int32 d o)
