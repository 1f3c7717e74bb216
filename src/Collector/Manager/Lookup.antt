-- ===== src/Collector/Manager/Lookup.antt =====
-- What the manager finds under a name.
use ebpf_probe.Prelude.{
  ◌≡◌, refl, ap, sym, ◌∙◌, Bool, true, ◌&&◌, Option, none, some, List, [], ◌∷◌, Bytes, bytes_eq,
  bytes_eq_refl, bytes_eq_sound, if◌then◌else◌, inl, inr, Bool-cases,
}
use ebpf_probe.Collector.Manager.{
  Collector, Manager, CollectorDef, put, get_collector, register, made_by, register_made,
  init_from_config,
}

module _ {S : Type 0} (o : Collector S) where
  -- Two names that are both equal to a third are equal.
  same_names : (a b c : Bytes) → bytes_eq a c ≡ true → bytes_eq b c ≡ true → bytes_eq a b ≡ true
  same_names a b c p q =
      ap (λ x. bytes_eq x b) (bytes_eq_sound a c p ∙ sym (bytes_eq_sound b c q)) ∙ bytes_eq_refl b

  same_test : (a b c : Bytes) → bytes_eq a b ≡ true → bytes_eq a c ≡ bytes_eq b c
  same_test a b c p = ap (λ x. bytes_eq x c) (bytes_eq_sound a b p)

  get_collector-put :
      (name wanted : Bytes) (c : S) (m : Manager S)
      → get_collector wanted (put name c m)
        ≡ (if bytes_eq name wanted then some c else get_collector wanted m)
  unfolding get_collector put
  get_collector-put name wanted c [] = refl
  get_collector-put name wanted c (e ∷ m) =
      let ih = get_collector-put name wanted c m in
      elim (Bool-cases (bytes_eq e.0 name)) [
        | inl same ↦ elim (Bool-cases (bytes_eq name wanted)) [
          | inl hit ↦ rw same (rw hit refl)
          | inr miss ↦ rw same (rw miss (rw (same_test e.0 name wanted same ∙ miss) refl))
        ]
        | inr other ↦ elim (Bool-cases (bytes_eq e.0 wanted)) [
          | inl hit ↦ elim (Bool-cases (bytes_eq name wanted)) [
            | inl clash ↦ cc (same_names e.0 name wanted hit clash, other)
            | inr miss ↦ rw other (rw miss (rw hit refl))
          ]
          | inr miss ↦ rw other (rw miss ih)
        ]
      ]

  -- What a call of Init for a collector leaves under the name wanted.
  abbrev pub found_or : Bytes → Option S → S × Bool → Option S
  found_or wanted old r = if r.1 && bytes_eq (o.name r.0) wanted then some r.0 else old

  get_collector-register :
      (wanted : Bytes) (c : S) (m : Manager S)
      → get_collector wanted (register o c m).0
        ≡ found_or wanted (get_collector wanted m) (o.init c)
  unfolding register
  get_collector-register wanted c m =
      let r = o.init c in
      elim (Bool-cases (o.init c).1) [
        | inl fine ↦ rw fine (get_collector-put (o.name (o.init c).0) wanted (o.init c).0 m)
        | inr bad ↦ rw bad refl
      ]

  abbrev pub kept_one : Bytes → Option S → Option S → Option S
  kept_one wanted none old = old
  kept_one wanted (some c) old = found_or wanted old (o.init c)

  -- The collector under the name after the entries, from the one before them on: the entries that
  -- enabled, and make a collector whose Init succeeds, each replace it.
  abbrev pub kept : Bytes → List (CollectorDef S) → Option S → Option S
  kept wanted [] old = old
  kept wanted (def ∷ defs) old = kept wanted defs (kept_one wanted (made_by def) old)

  get_collector-register_made :
      (wanted : Bytes) (made : Option S) (m : Manager S)
      → get_collector wanted (register_made o made m)
        ≡ kept_one wanted made (get_collector wanted m)
  get_collector-register_made wanted none m = refl
  get_collector-register_made wanted (some c) m = get_collector-register wanted c m

  -- For any implementation of the collectors: after the initialisation from a table of entries, the
  -- manager has under a name the collector of the last entry that is enabled, that makes a
  -- collector, whose Init succeeds, and that has this name then; and what it had before, if there
  -- is none.
  pub get_collector-init_from_config :
      (wanted : Bytes) (defs : List (CollectorDef S)) (m : Manager S)
      → get_collector wanted (init_from_config o defs m) ≡ kept wanted defs (get_collector wanted m)
  unfolding init_from_config
  get_collector-init_from_config wanted [] m = refl
  get_collector-init_from_config wanted (def ∷ defs) m =
      get_collector-init_from_config wanted defs (register_made o (made_by def) m)
      ∙ ap (kept wanted defs) (get_collector-register_made wanted (made_by def) m)
