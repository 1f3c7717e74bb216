-- ===== src/Protocol/Mysql/Command.antt =====
-- GetMySQLCommand looks at the first keyword alone, whatever its case and the space around it.
use mathlib.Core.Path.{ap₂}
use mathlib.Core.List.{reverse, reverse_aux, reverse-append}
use ebpf_probe.Prelude.{
  ℕ, ◌≡◌, refl, ap, ◌∙◌, true, [], ◌∷◌, ◌++◌, Bytes, arith, Bool-cases, inl, inr, to_upper, upper,
  is_space, trim_left, trim_space,
}
use ebpf_probe.Protocol.Mysql.{get_mysql_command}

upper_idem : (c : ℕ) → upper (upper c) ≡ upper c
unfolding upper
upper_idem c = ground arith

is_space-upper : (c : ℕ) → is_space (upper c) ≡ is_space c
unfolding is_space upper
is_space-upper c = ground arith

to_upper_idem : (s : Bytes) → to_upper (to_upper s) ≡ to_upper s
unfolding to_upper
to_upper_idem [] = refl
to_upper_idem (c ∷ s) = ap₂ (◌∷◌) (upper_idem c) (to_upper_idem s)

trim_left-to_upper : (s : Bytes) → trim_left (to_upper s) ≡ to_upper (trim_left s)
unfolding trim_left to_upper
trim_left-to_upper [] = refl
trim_left-to_upper (c ∷ s) = ground (arith, is_space-upper c, trim_left-to_upper s)

reverse_aux-to_upper :
    (s t : Bytes) → reverse_aux (to_upper s) (to_upper t) ≡ to_upper (reverse_aux s t)
unfolding to_upper
reverse_aux-to_upper [] t = refl
reverse_aux-to_upper (c ∷ s) t = reverse_aux-to_upper s (c ∷ t)

reverse-to_upper : (s : Bytes) → reverse (to_upper s) ≡ to_upper (reverse s)
unfolding to_upper
reverse-to_upper s = reverse_aux-to_upper s []

trim_space-to_upper : (s : Bytes) → trim_space (to_upper s) ≡ to_upper (trim_space s)
unfolding trim_space
trim_space-to_upper s =
    ap (λ t. reverse (trim_left (reverse t))) (trim_left-to_upper s)
    ∙ ap (λ t. reverse (trim_left t)) (reverse-to_upper (trim_left s))
    ∙ ap reverse (trim_left-to_upper (reverse (trim_left s)))
    ∙ reverse-to_upper (trim_left (reverse (trim_left s)))

-- A blank at the end is trimmed, too.
trim_space-append_blank :
    (s : Bytes) (c : ℕ) → is_space c ≡ true → trim_space (s ++ c ∷ []) ≡ trim_space s
unfolding trim_space trim_left
trim_space-append_blank [] c h = rw h
trim_space-append_blank (a ∷ s) c h = elim (Bool-cases (is_space a)) [
  | inl blank ↦ rw blank (trim_space-append_blank s c h)
  | inr other ↦ rw other (ap (λ t. reverse (trim_left t)) (reverse-append (a ∷ s) (c ∷ [])) ∙ rw h)
]

trim_space-blank : (s : Bytes) (c : ℕ) → is_space c ≡ true → trim_space (c ∷ s) ≡ trim_space s
unfolding trim_space trim_left
trim_space-blank s c h = rw h

get_mysql_command_of_trim :
    (s t : Bytes)
    → to_upper (trim_space s) ≡ to_upper (trim_space t)
    → get_mysql_command s ≡ get_mysql_command t
unfolding get_mysql_command
get_mysql_command_of_trim s t h = rw h

-- The command of a statement does not depend on the case of its letters, nor on a blank put before
-- or behind it.
pub get_mysql_command_insensitive :
    (s : Bytes) (c : ℕ)
    → is_space c ≡ true
    → (get_mysql_command (to_upper s) ≡ get_mysql_command s)
      × (get_mysql_command (c ∷ s) ≡ get_mysql_command s)
      × (get_mysql_command (s ++ c ∷ []) ≡ get_mysql_command s)
get_mysql_command_insensitive s c h = (
  get_mysql_command_of_trim (to_upper s) s
      (ap to_upper (trim_space-to_upper s) ∙ to_upper_idem (trim_space s)),
  get_mysql_command_of_trim (c ∷ s) s (ap to_upper (trim_space-blank s c h)),
  get_mysql_command_of_trim (s ++ c ∷ []) s (ap to_upper (trim_space-append_blank s c h)),
)
