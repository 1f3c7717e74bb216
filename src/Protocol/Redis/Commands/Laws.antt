-- ===== src/Protocol/Redis/Commands/Laws.antt =====
-- A command that a client writes is read back, and the commands that change data are known as such.
use ebpf_probe.Prelude.{
  ◌^◌, ◌<◌, ◌≡◌, ◌≢◌, ◌⊎◌, inl, inr, refl, sym, ◌&&◌, ap, ◌∙◌, Bool, true, false, List, [], ◌∷◌,
  Outcome, ok, ◌>>=◌, Bytes, any, length, arith, to_upper, bytes_eq, bytes_eq_sound, append-nil,
  Bool-cases,
}
use ebpf_probe.Protocol.Redis.{RedisError, Resp, Items, bulk, array, nil, cons, parse_redis_packet}
use ebpf_probe.Protocol.Redis.Wire.{IsResp, encode, AreElements}
use ebpf_probe.Protocol.Redis.RoundTrip.{parse_redis_packet-encode}
use ebpf_probe.Protocol.Redis.Commands.{
  RedisCommand, string_args, command_of, parse_redis_command, keyed_commands, get_redis_key,
  is_one_of, Category, read, write, get_redis_command_category,
}

-- A client sends the name and the arguments as bulk strings.
unfoldable pub bulks : List Bytes → Items
bulks [] = nil
bulks (s ∷ more) = cons (bulk s) (bulks more)

bulks-AreElements : (l : List Bytes) → AreElements (bulks l)
unfolding bulks
bulks-AreElements [] = tt
bulks-AreElements (s ∷ more) = (tt, tt, bulks-AreElements more)

string_args-bulks : (l : List Bytes) → string_args (bulks l) ≡ l
unfolding string_args bulks
string_args-bulks [] = refl
string_args-bulks (s ∷ more) = rw (string_args-bulks more)

packet_alone :
    (v : Resp) → IsResp v → length (encode v) < 2 ^ 45 → parse_redis_packet (encode v) ≡ ok v
packet_alone v h short =
    ap parse_redis_packet (sym (append-nil (encode v)))
    ∙ parse_redis_packet-encode v [] h (rw (append-nil (encode v)) short)

-- A command of less than 2^45 bytes that a client writes as an array of bulk strings is read back:
-- its name in upper case and all of its arguments, in order.
pub parse_redis_command-bulks :
    (name : Bytes) (args : List Bytes)
    → length (encode (array (bulks (name ∷ args)))) < 2 ^ 45
    → parse_redis_command (encode (array (bulks (name ∷ args))))
      ≡ ok
          (record { name = to_upper name; args = args; raw = encode (array (bulks (name ∷ args))) })
unfolding parse_redis_command
parse_redis_command-bulks name args h =
    let wire = encode (array (bulks (name ∷ args))) in
    ap (λ (m : Outcome RedisError Resp). m >>= command_of wire)
      (packet_alone (array (bulks (name ∷ args))) (bulks-AreElements (name ∷ args)) h)
    ∙ named wire
  where
    named :
        (d : Bytes)
        → command_of d (array (bulks (name ∷ args)))
          ≡ ok (record { name = to_upper name; args = args; raw = d })
    named d = unfold bulks in rw (string_args-bulks args)

abbrev all {ℓ} : {A : Type ℓ} → (A → Bool) → List A → Bool
all p [] = true
all p (x ∷ xs) = p x && all p xs

-- What a test says of every key it says of a name that is one of them.
of_table :
    (p : Bytes → Bool) (keys : List Bytes) (c : Bytes)
    → any (bytes_eq c) keys ≡ true
    → all p keys ≡ true
    → p c ≡ true
of_table p [] c h t = absurd (cc)
of_table p (k ∷ keys) c h t = elim (Bool-cases (bytes_eq c k)) [
  | inl e ↦ rw (bytes_eq_sound c k e) ((&&_parts (p k) (all p keys) t).0)
  | inr e ↦ of_table p keys c (rw (e, any) at h) (&&_parts (p k) (all p keys) t).1
]
  where
    &&_parts : (a b : Bool) → (a && b) ≡ true → (a ≡ true) × (b ≡ true)
    &&_parts a b h = ground arith

abbrev is_data : Category → Bool
is_data read = true
is_data write = true
is_data _ = false

table_is_data : all (λ c. is_data (get_redis_command_category c)) keyed_commands ≡ true
unfolding get_redis_command_category
table_is_data = refl

is_data_sound : (c : Category) → is_data c ≡ true → (c ≡ read) ⊎ (c ≡ write)
is_data_sound c h = ground arith

no_key : (cmd : RedisCommand) → is_one_of keyed_commands cmd.name ≡ false → get_redis_key cmd ≡ []
unfolding get_redis_key
no_key cmd h = rw h

-- A command from which a key is taken is classified as a read or a write.
pub get_redis_key_category :
    (cmd : RedisCommand)
    → get_redis_key cmd ≢ []
    → (get_redis_command_category cmd.name ≡ read) ⊎ (get_redis_command_category cmd.name ≡ write)
unfolding is_one_of
get_redis_key_category cmd h = elim (Bool-cases (any (bytes_eq cmd.name) keyed_commands)) [
  | inl e ↦ is_data_sound (get_redis_command_category cmd.name) (
      of_table (λ c. is_data (get_redis_command_category c)) keyed_commands cmd.name e
        table_is_data)
  | inr e ↦ absurd (h (no_key cmd e))
]
