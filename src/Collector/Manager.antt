-- ===== src/Collector/Manager.antt =====
-- manager.go: the manager, over any implementation of the interface Collector. Its map of
-- collectors is an association list with a name at most once; an error is the answer false, and
-- the capabilities that Init takes, which are the same for all, are left to the implementation.
pub mod Lookup
mod Tests
use ebpf_probe.Prelude.{
  Bool, true, false, ◌&&◌, Option, none, some, List, [], ◌∷◌, Bytes, bytes_eq, if◌then◌else◌,
}

pub record Collector (S : Type 0) : Type 0 where
  pub name : S → Bytes
  pub init : S → S × Bool
  pub start : S → S × Bool
  pub stop : S → S

-- `m.collectors`
abbrev pub Manager : Type 0 → Type 0
Manager S = List (Bytes × S)

-- An enabled or disabled entry of the table in InitFromConfig; none is a factory that returns nil.
abbrev pub CollectorDef : Type 0 → Type 0
CollectorDef S = Bool × Option S

module _ {S : Type 0} where
  -- `m.collectors[name] = c`
  unfoldable pub put : Bytes → S → Manager S → Manager S
  unfolding bytes_eq
  put name c [] = (name, c) ∷ []
  put name c (e ∷ m) =
      let rest = put name c m in if bytes_eq e.0 name then (name, c) ∷ m else e ∷ rest

  unfoldable pub get_collector : Bytes → Manager S → Option S
  unfolding bytes_eq
  get_collector name [] = none
  get_collector name (e ∷ m) =
      let rest = get_collector name m in if bytes_eq e.0 name then some e.1 else rest

  unfoldable pub register : Collector S → S → Manager S → Manager S × Bool
  unfolding put
  register o c m = let r = o.init c in if r.1 then (put (o.name r.0) r.0 m, true) else (m, false)

  abbrev pub made_by : CollectorDef S → Option S
  made_by (false, made) = none
  made_by (true, made) = made

  abbrev pub register_made : Collector S → Option S → Manager S → Manager S
  register_made o none m = m
  register_made o (some c) m = (register o c m).0

  unfoldable pub init_from_config : Collector S → List (CollectorDef S) → Manager S → Manager S
  unfolding register
  init_from_config o [] m = m
  init_from_config o (def ∷ defs) m = init_from_config o defs (register_made o (made_by def) m)

  unfoldable pub start_all : Collector S → Manager S → Manager S
  start_all o [] = []
  start_all o (e ∷ m) = (e.0, (o.start e.1).0) ∷ start_all o m

  unfoldable pub stop_all : Collector S → Manager S → Manager S
  stop_all o [] = []
  stop_all o (e ∷ m) = (e.0, o.stop e.1) ∷ stop_all o m
