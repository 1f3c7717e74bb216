-- ===== src/Collector/Manager/Tests.antt =====
-- manager.go: the theorem for collectors that are a name and whether they can run.
use ebpf_probe.Prelude.{◌≡◌, refl, Bool, true, false, none, some, List, [], ◌∷◌, Bytes, codes}
use ebpf_probe.Collector.Manager.{Collector, CollectorDef, get_collector, init_from_config}
use ebpf_probe.Collector.Manager.Lookup.{kept, get_collector-init_from_config}

abbrev probe : Collector (Bytes × Bool)
probe = record { name = λ c. c.0; init = λ c. (c, c.1); start = λ c. (c, true); stop = λ c. c }

-- One disabled, one that nobody makes, one whose Init fails, one that can run.
abbrev defs : List (CollectorDef (Bytes × Bool))
defs =
    (false, some (codes "tls", true))
    ∷ (true, none)
    ∷ (true, some (codes "http2", false))
    ∷ (true, some (codes "log", true))
    ∷ []

log_is_there :
    get_collector (codes "log") (init_from_config probe defs []) ≡ some (codes "log", true)
unfolding get_collector init_from_config
log_is_there = refl

get_collector-init_from_config_example :
    get_collector (codes "http2") (init_from_config probe defs [])
    ≡ kept probe (codes "http2") defs (get_collector (codes "http2") [])
get_collector-init_from_config_example =
    get_collector-init_from_config probe (codes "http2") defs []
