-- ===== src/Protocol/Redis/Inline/Words.antt =====
-- A formatted command that is sent as a line is parsed to the same words.
use ebpf_probe.Prelude.{
  ℕ, ◌≡◌, ◌≢◌, refl, ap, ◌∙◌, sym, append_assoc, append-nil, false, List, [], ◌∷◌, ◌++◌, ok, Bytes,
  All, take-append, arith, is_space, to_upper,
}
use ebpf_probe.Protocol.Redis.Wire.{OneLine, index_crlf-line}
use ebpf_probe.Protocol.Redis.Commands.{RedisCommand}
use ebpf_probe.Protocol.Redis.Inline.{
  inline_of, first_line, fields_from, parse_redis_inline_command, join_words, format_redis_command,
}

-- A word is not empty and has no blank in it.
abbrev pub NoBlank : Bytes → Type 0
NoBlank = All (λ c. is_space c ≡ false)

abbrev pub IsWord : Bytes → Type 0
IsWord [] = ⊥
IsWord (c ∷ w) = (is_space c ≡ false) × NoBlank w

-- The rest of a word is added to what has been read of it.
fields_word :
    (a : ℕ) (word rest s : Bytes)
    → NoBlank rest
    → fields_from (a ∷ word) (rest ++ s) ≡ fields_from (a ∷ (word ++ rest)) s
unfolding fields_from
fields_word a word [] s h = ap (λ (w : Bytes). fields_from (a ∷ w) s) (sym (append-nil word))
fields_word a word (c ∷ rest) s h = rw h.0 (
    fields_word a (word ++ c ∷ []) rest s h.1
    ∙ ap (λ (w : Bytes). fields_from (a ∷ w) s) (append_assoc word (c ∷ []) rest))

fields_first :
    (a : ℕ) (rest s : Bytes)
    → is_space a ≡ false
    → NoBlank rest
    → fields_from [] ((a ∷ rest) ++ s) ≡ fields_from (a ∷ rest) s
unfolding fields_from
fields_first a rest s ha h = rw ha (fields_word a [] rest s h)

fields_blank : (a : ℕ) (w s : Bytes) → fields_from (a ∷ w) (32 ∷ s) ≡ (a ∷ w) ∷ fields_from [] s
unfolding fields_from
fields_blank a w s = refl

-- Splitting undoes joining.
pub fields_from-join_words : (l : List Bytes) → All IsWord l → fields_from [] (join_words l) ≡ l
unfolding join_words
fields_from-join_words [] h = unfold fields_from in refl
fields_from-join_words ([] ∷ l) h = absurd h.0
fields_from-join_words ((a ∷ w) ∷ []) h =
    ap (fields_from []) (sym (append-nil (a ∷ w)))
    ∙ fields_first a w [] h.0.0 h.0.1
    ∙ unfold fields_from in refl
fields_from-join_words ((a ∷ w) ∷ v ∷ l) h =
    fields_first a w (32 ∷ join_words (v ∷ l)) h.0.0 h.0.1
    ∙ fields_blank a w (join_words (v ∷ l))
    ∙ ap (λ (m : List Bytes). (a ∷ w) ∷ m) (fields_from-join_words (v ∷ l) h.1)

not_cr : (c : ℕ) → is_space c ≡ false → c ≢ 13
unfolding is_space
not_cr c h = ground arith

OneLine-append : (s t : Bytes) → OneLine s → OneLine t → OneLine (s ++ t)
OneLine-append [] t hs ht = ht
OneLine-append (c ∷ s) t hs ht = (hs.0, OneLine-append s t hs.1 ht)

NoBlank-OneLine : (w : Bytes) → NoBlank w → OneLine w
NoBlank-OneLine [] h = tt
NoBlank-OneLine (c ∷ w) h = (not_cr c h.0, NoBlank-OneLine w h.1)

IsWord-OneLine : (w : Bytes) → IsWord w → OneLine w
IsWord-OneLine [] h = absurd h
IsWord-OneLine (c ∷ w) h = (not_cr c h.0, NoBlank-OneLine w h.1)

join_words-OneLine : (l : List Bytes) → All IsWord l → OneLine (join_words l)
unfolding join_words
join_words-OneLine [] h = tt
join_words-OneLine (w ∷ []) h = IsWord-OneLine w h.0
join_words-OneLine (w ∷ v ∷ l) h =
    OneLine-append w (32 ∷ join_words (v ∷ l)) (IsWord-OneLine w h.0)
      (omega arith, join_words-OneLine (v ∷ l) h.1)

first_line-line : (s rest : Bytes) → OneLine s → first_line (s ++ (13 ∷ 10 ∷ rest)) ≡ s
unfolding first_line
first_line-line s rest h = ground (arith, index_crlf-line s rest h, take-append s (13 ∷ 10 ∷ rest))

inline_of_words :
    (d name : Bytes) (args : List Bytes)
    → inline_of d (name ∷ args) ≡ ok (record { name = to_upper name; args = args; raw = d })
unfolding inline_of
inline_of_words d name args = refl

-- A command of words without blanks, formatted and sent as a line, is parsed to the same arguments
-- and to its name in upper case, whatever lines follow.
pub parse_redis_inline_command-format :
    (cmd : RedisCommand) (rest : Bytes)
    → IsWord cmd.name
    → All IsWord cmd.args
    → let wire = format_redis_command cmd ++ (13 ∷ 10 ∷ rest) in
      parse_redis_inline_command wire
      ≡ ok (record { name = to_upper cmd.name; args = cmd.args; raw = wire })
unfolding parse_redis_inline_command format_redis_command
parse_redis_inline_command-format cmd rest hn ha =
    let words = cmd.name ∷ cmd.args in
    let line = join_words words in
    let wire : Bytes = line ++ (13 ∷ 10 ∷ rest) in
    ap (inline_of wire) (
      ap (fields_from []) (first_line-line line rest (join_words-OneLine words (hn, ha)))
      ∙ fields_from-join_words words (hn, ha))
    ∙ inline_of_words wire cmd.name cmd.args
