-- ===== src/Protocol/Tls/Names.antt =====
-- https.go: the names of versions and handshake messages, and the test for a TLS record.
use ebpf_probe.Prelude.{
  ℕ, ◌+◌, ◌*◌, Bool, true, false, ◌||◌, Option, none, some, [], ◌∷◌, ◌++◌, Bytes, get_or, length,
  ltb, ◌==◌, if◌then◌else◌, codes, Names, name_of, hex4,
}
use ebpf_probe.Prelude.Decimal.{format_int}

abbrev pub tls_version_names : Names
tls_version_names =
    (0x0300, codes "SSLv3.0")
    ∷ (0x0301, codes "TLSv1.0")
    ∷ (0x0302, codes "TLSv1.1")
    ∷ (0x0303, codes "TLSv1.2")
    ∷ (0x0304, codes "TLSv1.3")
    ∷ []

abbrev pub tls_handshake_type_names : Names
tls_handshake_type_names =
    (1, codes "ClientHello")
    ∷ (2, codes "ServerHello")
    ∷ (11, codes "Certificate")
    ∷ (12, codes "ServerKeyExchange")
    ∷ (13, codes "CertificateRequest")
    ∷ (14, codes "ServerHelloDone")
    ∷ (15, codes "CertificateVerify")
    ∷ (16, codes "ClientKeyExchange")
    ∷ (20, codes "Finished")
    ∷ []

abbrev name_or : Option Bytes → Bytes → Bytes
name_or none other = other
name_or (some name) other = name

unfoldable pub get_tls_version_name : ℕ → Bytes
unfolding name_of hex4
get_tls_version_name v =
    name_or (name_of tls_version_names v) (codes "Unknown(0x" ++ (hex4 v ++ codes ")"))

unfoldable pub get_tls_handshake_type_name : ℕ → Bytes
unfolding name_of format_int
get_tls_handshake_type_name t =
    name_or (name_of tls_handshake_type_names t) (codes "Unknown(" ++ (format_int t ++ codes ")"))

-- `contentType != … && …` refuses; then the version must be in the table.
unfoldable pub is_tls_record : Bytes → Bool
unfolding name_of
is_tls_record d =
    let kind = get_or d 0 0 in
    let v = get_or d 1 0 * 256 + get_or d 2 0 in
    if ltb (length d) 5
    then false
    else if kind == 22 || kind == 23 || kind == 20 || kind == 21
    then elim (name_of tls_version_names v) [ none ↦ false | some name ↦ true ]
    else false
