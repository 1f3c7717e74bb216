-- ===== src/Protocol/Redis/Inline.antt =====
-- Inline commands: words between blanks up to the line's end.
pub mod Words
use ebpf_probe.Prelude.{
  ℕ, List, [], ◌∷◌, ◌++◌, Option, none, some, Outcome, ok, err, Bytes, take, index_crlf, is_space,
  to_upper, if◌then◌else◌,
}
use ebpf_probe.Protocol.Redis.{RedisError, empty_command_parts}
use ebpf_probe.Protocol.Redis.Commands.{RedisCommand}

-- `strings.Split(s, "\r\n")[0]`: everything, if there is no line end.
unfoldable pub first_line : Bytes → Bytes
unfolding index_crlf
first_line s = elim (index_crlf s) [ none ↦ s | some i ↦ take i s ]

-- `strings.Fields`, over ASCII: `word` is the part of a word that has been read.
unfoldable pub fields_from : Bytes → Bytes → List Bytes
unfolding is_space
fields_from [] [] = []
fields_from (w ∷ word) [] = (w ∷ word) ∷ []
fields_from [] (c ∷ s) = if is_space c then fields_from [] s else fields_from (c ∷ []) s
fields_from (w ∷ word) (c ∷ s) =
    if is_space c then (w ∷ word) ∷ fields_from [] s else fields_from ((w ∷ word) ++ c ∷ []) s

-- The command that the words of the line `d` make.
unfoldable pub inline_of : Bytes → List Bytes → Outcome RedisError RedisCommand
inline_of d [] = err empty_command_parts
inline_of d (name ∷ args) = ok (record { name = to_upper name; args = args; raw = d })

unfoldable pub parse_redis_inline_command : Bytes → Outcome RedisError RedisCommand
parse_redis_inline_command d = inline_of d (fields_from [] (first_line d))

-- `strings.Join(parts, " ")`
unfoldable pub join_words : List Bytes → Bytes
join_words [] = []
join_words (w ∷ []) = w
join_words (w ∷ v ∷ more) = w ++ (32 ∷ join_words (v ∷ more))

unfoldable pub format_redis_command : RedisCommand → Bytes
unfolding join_words
format_redis_command cmd = join_words (cmd.name ∷ cmd.args)
