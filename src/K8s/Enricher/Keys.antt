-- ===== src/K8s/Enricher/Keys.antt =====
-- The keys of the cache.
use ebpf_probe.Prelude.{
  ℕ, ◌+◌, ◌-◌, ◌*◌, ◌≡◌, ◌↔◌, refl, ap, sym, ◌∙◌, Bool, true, false, ◌&&◌, ◌||◌, [], ◌∷◌, Bytes,
  ltb, leb, if◌then◌else◌, Bool-cases, inl, inr, arith,
}
use ebpf_probe.K8s.Enricher.{format_pid}

-- The code point that stands in the key: the number itself, if it is one.
abbrev pub code_point : ℕ → ℕ
code_point n = if (leb 0xd800 n && leb n 0xdfff) || ltb 0x10ffff n then 0xfffd else n

abbrev decode : Bytes → ℕ
decode (a ∷ []) = a
decode (a ∷ b ∷ []) = (a - 0xc0) * 64 + (b - 0x80)
decode (a ∷ b ∷ c ∷ []) = (a - 0xe0) * 4096 + ((b - 0x80) * 64 + (c - 0x80))
decode (a ∷ b ∷ c ∷ d ∷ []) =
    (a - 0xf0) * 262144 + ((b - 0x80) * 4096 + ((c - 0x80) * 64 + (d - 0x80)))
decode _ = 0

decode-format_pid : (n : ℕ) → decode (format_pid n) ≡ code_point n
unfolding format_pid
decode-format_pid n = ground arith

abbrev is_bad : ℕ → Bool
is_bad n = (leb 0xd800 n && leb n 0xdfff) || ltb 0x10ffff n

code_point_fine : (n : ℕ) → is_bad n ≡ false → code_point n ≡ n
code_point_fine n fine = rw fine refl

code_point_bad : (n : ℕ) → is_bad n ≡ true → code_point n ≡ 0xfffd
code_point_bad n bad = rw bad refl

format_pid_bad : (n : ℕ) → is_bad n ≡ true → format_pid n ≡ 0xef ∷ 0xbf ∷ 0xbd ∷ []
unfolding format_pid
format_pid_bad n bad = ground arith

format_pid_fffd : format_pid 0xfffd ≡ 0xef ∷ 0xbf ∷ 0xbd ∷ []
unfolding format_pid
format_pid_fffd = refl

format_pid-code_point : (n : ℕ) → format_pid (code_point n) ≡ format_pid n
format_pid-code_point n = elim (Bool-cases (is_bad n)) [
  | inl bad ↦ ap format_pid (code_point_bad n bad) ∙ (format_pid_fffd ∙ sym (format_pid_bad n bad))
  | inr fine ↦ ap format_pid (code_point_fine n fine)
]

-- Two process numbers share a key of the cache exactly when they stand for one code point: every
-- number above 0x10FFFF, and every one from 0xD800 to 0xDFFF, stands for U+FFFD.
pub format_pid_iff : (p q : ℕ) → (format_pid p ≡ format_pid q) ↔ (code_point p ≡ code_point q)
format_pid_iff p q = (
  λ same. sym (decode-format_pid p) ∙ (ap decode same ∙ decode-format_pid q),
  λ same. sym (format_pid-code_point p) ∙ (ap format_pid same ∙ format_pid-code_point q),
)
