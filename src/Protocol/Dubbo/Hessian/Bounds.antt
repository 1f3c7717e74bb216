-- ===== src/Protocol/Dubbo/Hessian/Bounds.antt =====
-- Hessian2Decoder never reads past its bytes, and its offset stays within them.
use ebpf_probe.Prelude.{ℕ, ◌≤◌, ◌≢◌, refl, ok, err, panic, Outcome, Bytes, length, arith}
use ebpf_probe.Prelude.Decimal.{ℤ, pos, negsuc}
use ebpf_probe.Protocol.Dubbo.Hessian.{
  HessianError, read_byte, read_int32, read_int64, string_body, read_string,
}

-- A read that started at `o`: it does not crash, and leaves an offset from `o` to the end.
abbrev pub StaysIn : {A : Type 0} → Bytes → ℕ → Outcome HessianError A × ℕ → Type 0
StaysIn d o r = (r.0 ≢ panic) × (o ≤ r.1) × (r.1 ≤ length d)

read_byte-StaysIn : (d : Bytes) (o : ℕ) → o ≤ length d → StaysIn d o (read_byte d o)
unfolding read_byte
read_byte-StaysIn d o h = (ground arith, ground arith, ground arith)

read_int32-StaysIn : (d : Bytes) (o : ℕ) → o ≤ length d → StaysIn d o (read_int32 d o)
unfolding read_int32
read_int32-StaysIn d o h = (ground arith, ground arith, ground arith)

read_int64-StaysIn : (d : Bytes) (o : ℕ) → o ≤ length d → StaysIn d o (read_int64 d o)
unfolding read_int64
read_int64-StaysIn d o h = (ground arith, ground arith, ground arith)

string_body-StaysIn :
    (d : Bytes) (o : ℕ) (r : Outcome HessianError ℤ × ℕ)
    → StaysIn d o r
    → StaysIn d o (string_body d r)
unfolding string_body
string_body-StaysIn d o (ok (pos n), at) h = (ground arith, ground arith, ground arith)
string_body-StaysIn d o (ok (negsuc n), at) h = (ground arith, h.1, h.2)
string_body-StaysIn d o (err e, at) h = (ground arith, h.1, h.2)
string_body-StaysIn d o (panic, at) h = absurd (h.0 refl)

read_string-StaysIn : (d : Bytes) (o : ℕ) → o ≤ length d → StaysIn d o (read_string d o)
unfolding read_string
read_string-StaysIn d o h =
    let body = string_body-StaysIn d o (read_int32 d o) (read_int32-StaysIn d o h) in
    (ground (arith, body.0), ground (arith, body.1), ground (arith, body.2))

-- From an offset within the bytes, no method of the decoder crashes, and each leaves an offset
-- that is not smaller and within the bytes.
pub hessian-StaysIn :
    (d : Bytes) (o : ℕ)
    → o ≤ length d
    → StaysIn d o (read_byte d o)
      × StaysIn d o (read_int32 d o)
      × StaysIn d o (read_int64 d o)
      × StaysIn d o (read_string d o)
hessian-StaysIn d o h = (
  read_byte-StaysIn d o h,
  read_int32-StaysIn d o h,
  read_int64-StaysIn d o h,
  read_string-StaysIn d o h,
)
