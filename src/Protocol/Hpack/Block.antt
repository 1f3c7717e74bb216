-- ===== src/Protocol/Hpack/Block.antt =====
-- HPACK header blocks: the decoding loop ends, and literal fields are read back in order.
use ebpf_probe.Prelude.{
  ℕ, zero, suc, ◌+◌, ◌≤◌, ◌<◌, ◌≡◌, ◌≢◌, refl, ap, ◌∙◌, sym, append_assoc, append-nil, Bool, true,
  false, List, [], ◌∷◌, ◌++◌, ok, err, >>=-ne-err, Bytes, All, length, length-append, length-drop,
  drop-append, drop-one_more, le→leb, drop, arith, if◌then◌else◌,
}
use ebpf_probe.Protocol.Hpack.{
  HeaderField, Headers, DynamicTable, Field, decode_integer, decode_string, indexed_field,
  literal_field, decode_header_field, decode_loop, decode, out_of_fuel,
}
use ebpf_probe.Protocol.Hpack.Integer.{decode_integer_bounds}
use ebpf_probe.Protocol.Hpack.Strings.{encode_string, decode_string-encode_string}

-- No field is empty, so that the loop advances.
literal_field_used :
    (prefix : ℕ) (grow : HeaderField → DynamicTable) (b : ℕ) (d : Bytes) (f : Field)
    → literal_field prefix grow (b ∷ d) ≡ ok f
    → 0 < f.used
unfolding literal_field
literal_field_used prefix grow b d f h = ground (arith, decode_integer_bounds b d prefix)

indexed_field_used :
    (table : DynamicTable) (b : ℕ) (d : Bytes) (f : Field)
    → indexed_field table (b ∷ d) ≡ ok f
    → 0 < f.used
unfolding indexed_field
indexed_field_used table b d f h = ground (arith, decode_integer_bounds b d 7)

decode_header_field_used :
    (table : DynamicTable) (b : ℕ) (d : Bytes) (f : Field)
    → decode_header_field table (b ∷ d) ≡ ok f
    → 0 < f.used
unfolding decode_header_field
decode_header_field_used table b d f h = ground (
  arith,
  indexed_field_used table b d f,
  literal_field_used 6 (λ (x : HeaderField). table ++ x ∷ []) b d f,
  literal_field_used 4 (λ (x : HeaderField). table) b d f,
)

decode_string_fuel : (d : Bytes) → decode_string d ≢ err out_of_fuel
unfolding decode_string
decode_string_fuel d = ground arith

literal_field_fuel :
    (prefix : ℕ) (grow : HeaderField → DynamicTable) (d : Bytes)
    → literal_field prefix grow d ≢ err out_of_fuel
unfolding literal_field
literal_field_fuel prefix grow d = grind (arith, decode_string_fuel)

decode_header_field_fuel :
    (table : DynamicTable) (d : Bytes) → decode_header_field table d ≢ err out_of_fuel
unfolding decode_header_field indexed_field
decode_header_field_fuel table [] = cc
decode_header_field_fuel table (b ∷ d) = ground (
  arith,
  literal_field_fuel 6 (λ (x : HeaderField). table ++ x ∷ []) (b ∷ d),
  literal_field_fuel 4 (λ (x : HeaderField). table) (b ∷ d),
)

decode_loop_fuel :
    (fuel : ℕ) (table : DynamicTable) (headers : Headers) (d : Bytes)
    → length d < fuel
    → decode_loop fuel table headers d ≢ err out_of_fuel
unfolding decode_loop
decode_loop_fuel zero table headers d h = absurd (omega arith)
decode_loop_fuel (suc fuel) table headers [] h = cc
decode_loop_fuel (suc fuel) table headers (b ∷ d) h =
    >>=-ne-err (decode_header_field table (b ∷ d)) _ (decode_header_field_fuel table (b ∷ d)) λ f e.
      decode_loop_fuel fuel f.table (f.field ∷ headers) (drop f.used (b ∷ d))
        (omega (arith, decode_header_field_used table b d f e, length-drop f.used (b ∷ d)))

-- Decoding ends by itself on every header block: the fuel of the model is never used up.
pub decode_terminates : (table : DynamicTable) (d : Bytes) → decode table d ≢ err out_of_fuel
unfolding decode
decode_terminates table d = decode_loop_fuel (suc (length d)) table [] d (omega arith)

-- A literal field with a new name: 0x40 adds it to the dynamic table, 0x00 does not.
unfoldable pub encode_literal : Bool → HeaderField → Bytes
encode_literal keep f = (if keep then 0x40 else 0) ∷ (encode_string f.name ++ encode_string f.value)

unfoldable pub encode_block : List (Bool × HeaderField) → Bytes
encode_block [] = []
encode_block ((keep, f) ∷ more) = encode_literal keep f ++ encode_block more

-- The fields that were marked, in order.
abbrev pub kept : List (Bool × HeaderField) → DynamicTable
kept [] = []
kept ((keep, f) ∷ more) = if keep then f ∷ kept more else kept more

-- The fields, the last one first, in front of `headers`.
abbrev pub push_all : List (Bool × HeaderField) → Headers → Headers
push_all [] headers = headers
push_all ((keep, f) ∷ more) headers = push_all more (f ∷ headers)

pub record IsShort (p : Bool × HeaderField) : Type 0 where
  pub short_name : length (p.1).name < 128
  pub short_value : length (p.1).value < 128

literal_field_parts :
    (prefix first : ℕ) (grow : HeaderField → DynamicTable) (f : HeaderField) (rest : Bytes)
    → decode_integer (first ∷ (encode_string f.name ++ (encode_string f.value ++ rest))) prefix
      ≡ (0, 1)
    → length f.name < 128
    → length f.value < 128
    → literal_field prefix grow (first ∷ (encode_string f.name ++ (encode_string f.value ++ rest)))
      ≡ ok (record {
        field = f;
        used = suc (length (encode_string f.name) + length (encode_string f.value));
        table = grow f;
      })
unfolding literal_field
literal_field_parts prefix first grow f rest h hn hv =
    let n = encode_string f.name in
    let v = encode_string f.value in
    let d : Bytes = first ∷ (n ++ (v ++ rest)) in
    let at_value : drop (1 + length n) d ≡ v ++ rest =
      drop-one_more (length n) d ∙ drop-append n (v ++ rest) in
    rw
      (
        h,
        le→leb 1 (length d) (omega arith),
        decode_string-encode_string f.name (v ++ rest) hn,
        le→leb (1 + length n) (length d)
            (omega (arith, length-append n (v ++ rest), length-append v rest)),
        at_value,
        decode_string-encode_string f.value rest hv,
      )
      (ap (λ (k : ℕ). ok (record { field = f; used = k; table = grow f })) (omega arith))

-- Decoding one literal field in front of anything.
decode_header_field-encode_literal :
    (table : DynamicTable) (keep : Bool) (f : HeaderField) (rest : Bytes)
    → length f.name < 128
    → length f.value < 128
    → decode_header_field table (encode_literal keep f ++ rest)
      ≡ ok (record {
        field = f;
        used = length (encode_literal keep f);
        table = if keep then table ++ f ∷ [] else table;
      })
unfolding decode_header_field encode_literal
decode_header_field-encode_literal table true f rest hn hv =
    rw
      (
        append_assoc (encode_string f.name) (encode_string f.value) rest,
        length-append (encode_string f.name) (encode_string f.value),
      )
      (literal_field_parts 6 0x40 (λ x. table ++ x ∷ []) f rest (unfold decode_integer in refl) hn
        hv)
decode_header_field-encode_literal table false f rest hn hv =
    rw
      (
        append_assoc (encode_string f.name) (encode_string f.value) rest,
        length-append (encode_string f.name) (encode_string f.value),
      )
      (literal_field_parts 4 0 (λ x. table) f rest (unfold decode_integer in refl) hn hv)

-- A literal is not empty: its first byte, then the rest.
abbrev literal_rest : HeaderField → Bytes
literal_rest f = encode_string f.name ++ encode_string f.value

decode_loop-field :
    (fuel : ℕ) (table : DynamicTable) (headers : Headers) (b : ℕ) (d : Bytes) (g : Field)
    → decode_header_field table (b ∷ d) ≡ ok g
    → decode_loop (suc fuel) table headers (b ∷ d)
      ≡ decode_loop fuel g.table (g.field ∷ headers) (drop g.used (b ∷ d))
unfolding decode_loop
decode_loop-field fuel table headers b d g h = rw h

decode_loop_step :
    (fuel : ℕ) (table : DynamicTable) (headers : Headers) (keep : Bool) (f : HeaderField)
    (rest : Bytes)
    → IsShort (keep, f)
    → decode_loop (suc fuel) table headers (encode_literal keep f ++ rest)
      ≡ decode_loop fuel (if keep then table ++ f ∷ [] else table) (f ∷ headers) rest
unfolding encode_literal
decode_loop_step fuel table headers keep f rest h =
    decode_loop-field fuel table headers (if keep then 0x40 else 0) (literal_rest f ++ rest) _
      (decode_header_field-encode_literal table keep f rest h.short_name h.short_value)
    ∙ ap (decode_loop fuel (if keep then table ++ f ∷ [] else table) (f ∷ headers))
        (drop-append (encode_literal keep f) rest)

decode_loop-encode_block :
    (fuel : ℕ) (table : DynamicTable) (headers : Headers) (l : List (Bool × HeaderField))
    → length l < fuel
    → All IsShort l
    → decode_loop fuel table headers (encode_block l) ≡ ok (push_all l headers, table ++ kept l)
unfolding encode_block
decode_loop-encode_block zero table headers l h short = absurd (omega arith)
decode_loop-encode_block (suc fuel) table headers [] h short =
    unfold decode_loop in ap (λ (t : DynamicTable). ok (headers, t)) (sym (append-nil table))
decode_loop-encode_block (suc fuel) table headers ((true, f) ∷ l) h short =
    decode_loop_step fuel table headers true f (encode_block l) short.0
    ∙ decode_loop-encode_block fuel (table ++ f ∷ []) (f ∷ headers) l (omega arith) short.1
    ∙ ap (λ (t : DynamicTable). ok (push_all l (f ∷ headers), t))
        (append_assoc table (f ∷ []) (kept l))
decode_loop-encode_block (suc fuel) table headers ((false, f) ∷ l) h short =
    decode_loop_step fuel table headers false f (encode_block l) short.0
    ∙ decode_loop-encode_block fuel table (f ∷ headers) l (omega arith) short.1

length-encode_block : (l : List (Bool × HeaderField)) → length l ≤ length (encode_block l)
unfolding encode_block encode_literal
length-encode_block [] = omega arith
length-encode_block ((keep, f) ∷ l) = omega (
  arith,
  length-encode_block l,
  length-append (encode_string f.name ++ encode_string f.value) (encode_block l),
)

-- A block of literal fields, each name and value below 128 bytes, is decoded to those fields, the
-- last one first, and exactly the marked ones are added to the dynamic table, in order.
pub decode-encode_block :
    (table : DynamicTable) (l : List (Bool × HeaderField))
    → All IsShort l
    → decode table (encode_block l) ≡ ok (push_all l [], table ++ kept l)
unfolding decode
decode-encode_block table l short =
    decode_loop-encode_block (suc (length (encode_block l))) table [] l
      (omega (arith, length-encode_block l)) short
