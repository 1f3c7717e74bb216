-- ===== src/Protocol/Hpack/Tests.antt =====
-- HPACK: runs on concrete bytes, and each theorem at a concrete input.
use ebpf_probe.Prelude.{
  ◌+◌, ◌^◌, ◌<◌, ◌≤◌, ◌≡◌, ◌≢◌, ◌↔◌, refl, Bool, true, false, List, [], ◌∷◌, ◌++◌, ok, err, panic,
  Bytes, codes, arith, All,
}
use ebpf_probe.Protocol.Hpack.{
  HeaderField, integer_loop, decode_integer, decode_string, decode, out_of_fuel,
}
use ebpf_probe.Protocol.Hpack.Integer.{read_as, read_as_iff}
use ebpf_probe.Protocol.Hpack.Strings.{decode_string_panics_iff}
use ebpf_probe.Protocol.Hpack.Block.{
  encode_block, kept, push_all, IsShort, decode_terminates, decode-encode_block,
}

abbrev fields : List (Bool × HeaderField)
fields =
    (true, record { name = codes "a"; value = codes "1" })
    ∷ (false, record { name = codes "b"; value = [] })
    ∷ []

-- RFC 7541, C.1.2: 1337 with a prefix of five bits is 1f 9a 0a, which is read as 41823.
misread : decode_integer (0x1f ∷ 0x9a ∷ 0x0a ∷ []) 5 ≡ (41823, 3)
unfolding decode_integer integer_loop
misread = refl

-- A length that wraps around: ten bytes that crash the decoder.
abbrev hostile_tail : Bytes
hostile_tail = 0xff ∷ 0xff ∷ 0xff ∷ 0xff ∷ 0xff ∷ 0xff ∷ 0xff ∷ 0xff ∷ 0x01 ∷ []

abbrev hostile : Bytes
hostile = 0x7f ∷ hostile_tail

hostile_panics : decode_string hostile ≡ panic
unfolding decode_string decode_integer integer_loop
hostile_panics = refl

read_as_iff_example : (read_as 7 200 ≡ 200) ↔ (200 < 2 ^ 7)
read_as_iff_example = read_as_iff 7 200 (omega arith)

decode_string_panics_iff_example :
    (decode_string (hostile) ≡ panic)
    ↔ (2 ^ 64 ≤ (decode_integer (hostile) 7).1 + (decode_integer (hostile) 7).0)
decode_string_panics_iff_example = decode_string_panics_iff 0x7f hostile_tail (omega arith)

decode_terminates_example : decode [] hostile ≢ err out_of_fuel
decode_terminates_example = decode_terminates [] hostile

fields-IsShort : All IsShort fields
fields-IsShort = (
  record { short_name = omega arith; short_value = omega arith },
  (record { short_name = omega arith; short_value = omega arith }, tt),
)

decode-encode_block_example :
    decode [] (encode_block fields) ≡ ok (push_all fields [], [] ++ kept fields)
decode-encode_block_example = decode-encode_block [] fields fields-IsShort
