-- ===== src/Protocol/Redis.antt =====
-- pkg/protocol/redis.go: RESP values, commands, and their categories and keys. A Go string is its
-- bytes; `RedisRESP` with its dynamic `Value` is a data type with a constructor for each shape that
-- the parser builds.
pub mod Commands
pub mod Wire
pub mod RoundTrip
pub mod Total
pub mod Faults
pub mod Inline
mod Tests
use ebpf_probe.Prelude.{
  ℕ, zero, suc, ◌+◌, ◌-◌, ◌*◌, ◌^◌, Bool, true, false, ◌&&◌, ◌||◌, List, [], ◌∷◌, ◌++◌, Option,
  none, some, Outcome, ok, err, panic, ◌>>=◌, ◌>>◌, ◌>>◌, fail_if, Bytes, slice, length, take, drop,
  ltb, leb, ◌==◌, if◌then◌else◌, codes, to_upper, index_crlf,
}
use ebpf_probe.Prelude.Decimal.{ℤ, pos, negsuc, atoi, format_int}

mutual
  pub data Resp : Type 0 where
    simple : ℕ → Bytes → Resp
    bulk : Bytes → Resp
    array : Items → Resp
    bulk_nil array_nil : Resp

  pub data Items : Type 0 where
    nil : Items
    cons : Resp → Items → Items

-- `out_of_fuel` has no counterpart in the program; the parser never meets it.
pub data RedisError : Type 0 where
  empty_data incomplete_simple incomplete_bulk_length invalid_bulk_length : RedisError
  incomplete_bulk_data incomplete_array_length invalid_array_length : RedisError
  incomplete_array_element unknown_type not_array invalid_array empty_command : RedisError
  invalid_command_name empty_command_parts out_of_fuel : RedisError

unfoldable pub is_simple_type : ℕ → Bool
is_simple_type t = (t == b'+') || ((t == b'-') || (t == b':'))

-- The largest capacity that `make([]*RedisRESP, 0, length)` takes: 2^48 bytes of pointers.
abbrev pub max_elements : ℕ
max_elements = 2 ^ 45

-- Behind the length line of a bulk string: `offset+length+2 > len(data)`, and then the slice
-- `data[offset : offset+length]`, whose upper bound may be below 0, which is out of range. A sum that
-- leaves the 64-bit range wraps around to a negative number, passes the guard, and is out of range.
unfoldable pub bulk_body : Bytes → ℕ → Option ℤ → Outcome RedisError Resp
bulk_body d offset none = err invalid_bulk_length
bulk_body d offset (some (negsuc zero)) = ok bulk_nil
bulk_body d offset (some (negsuc (suc k))) =
    if ltb (length d + (k + 2)) (offset + 2)
    then err incomplete_bulk_data
    else if ltb offset (k + 2)
    then panic
    else slice d offset (offset - (k + 2)) >>= λ text. ok (bulk text)
bulk_body d offset (some (pos n)) =
    if leb (2 ^ 63) (offset + n + 2)
    then panic
    else if ltb (length d) (offset + n + 2)
    then err incomplete_bulk_data
    else slice d offset (offset + n) >>= λ text. ok (bulk text)

unfoldable pub parse_bulk : Bytes → Bytes → Outcome RedisError Resp
unfolding bulk_body
parse_bulk d s = elim (index_crlf s) [
  | none ↦ err incomplete_bulk_length
  | some e ↦ bulk_body d (1 + e + 2) (atoi (take e s))
]

unfoldable pub parse_simple : ℕ → Bytes → Outcome RedisError Resp
parse_simple t s = elim (index_crlf s) [
  | none ↦ err incomplete_simple
  | some e ↦ ok (simple t (take e s))
]

unfoldable pub count_items : Items → ℕ
count_items nil = 0
count_items (cons x xs) = suc (count_items xs)

-- calculateRESPSize
unfoldable mutual
  unfolding count_items format_int

  pub calculate_resp_size : Resp → ℕ
  calculate_resp_size (simple t s) = 1 + length s + 2
  calculate_resp_size bulk_nil = 4
  calculate_resp_size (bulk s) = 1 + length (format_int (length s)) + 2 + length s + 2
  calculate_resp_size array_nil = 4
  calculate_resp_size (array xs) = 1 + length (format_int (count_items xs)) + 2 + items_size xs

  pub items_size : Items → ℕ
  items_size nil = 0
  items_size (cons x xs) = calculate_resp_size x + items_size xs

-- `make([]*RedisRESP, 0, length)`, which panics on a capacity out of range.
unfoldable pub make_elements : ℤ → Outcome RedisError (Unit {0})
make_elements (pos n) = if ltb max_elements n then panic else ok tt
make_elements (negsuc k) = panic

-- The elements of an array, from `offset` on, given how many are left and a parser for one. No round
-- of the loop is made for a negative length.
unfoldable pub array_body :
    Bytes → (ℕ → ℕ → Outcome RedisError Items) → ℕ → Option ℤ → Outcome RedisError Resp
unfolding make_elements
array_body d elements offset none = err invalid_array_length
array_body d elements offset (some (negsuc zero)) = ok array_nil
array_body d elements offset (some (negsuc (suc k))) =
    make_elements (negsuc (suc k)) >> ok (array nil)
array_body d elements offset (some (pos n)) =
    make_elements (pos n) >> (elements offset n >>= λ xs. ok (array xs))

-- An element costs a unit of fuel and at least three bytes.
unfoldable mutual
  unfolding is_simple_type parse_simple parse_bulk array_body

  pub parse_resp : ℕ → Bytes → Outcome RedisError Resp
  parse_resp zero d = err out_of_fuel
  parse_resp (suc f) [] = err empty_data
  parse_resp (suc f) (t ∷ s) =
      if is_simple_type t
      then parse_simple t s
      else if t == b'$'
      then parse_bulk (t ∷ s) s
      else if t == b'*'
      then elim (index_crlf s) [
        | none ↦ err incomplete_array_length
        | some e ↦
            array_body (t ∷ s) (λ offset n. parse_elements f (t ∷ s) offset n) (1 + e + 2)
              (atoi (take e s))
      ]
      else err unknown_type

  pub parse_elements : ℕ → Bytes → ℕ → ℕ → Outcome RedisError Items
  parse_elements zero d offset n = err out_of_fuel
  parse_elements (suc f) d offset n =
      let more = parse_resp f (drop offset d) >>= λ x.
      parse_elements f d (offset + calculate_resp_size x) (n - 1) >>= λ xs. ok (cons x xs) in
      if n == 0
      then ok nil
      else if leb (length d) offset
      then err incomplete_array_element
      else more

unfoldable pub parse_redis_packet : Bytes → Outcome RedisError Resp
unfolding parse_resp
parse_redis_packet d = parse_resp (2 * length d + 1) d
