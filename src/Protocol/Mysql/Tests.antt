-- ===== src/Protocol/Mysql/Tests.antt =====
-- MySQL: runs on concrete bytes, and each theorem at a concrete input.
use ebpf_probe.Prelude.{◌≡◌, ◌≢◌, refl, true, [], ◌∷◌, panic, codes, is_space}
use ebpf_probe.Protocol.Mysql.{
  MysqlPacket, OkPacket, parse_mysql_packet, parse_mysql_handshake, parse_mysql_query,
  parse_mysql_ok, parse_mysql_eof, parse_mysql_error, get_mysql_command,
}
use ebpf_probe.Protocol.Mysql.Bounds.{mysql_never_panics}
use ebpf_probe.Protocol.Mysql.RoundTrip.{encode_packet}

abbrev ping : MysqlPacket
ping = record { sequence_id = 7; payload = 0x0e ∷ [] }

abbrev updated : OkPacket
updated = record { affected_rows = 300; last_insert_id = 70000; status_flags = 2; warnings = 1 }

ping_bytes : encode_packet ping ≡ 1 ∷ 0 ∷ 0 ∷ 7 ∷ 0x0e ∷ []
unfolding encode_packet
ping_bytes = refl

select_lower : get_mysql_command (codes "  select 1") ≡ codes "SELECT"
unfolding get_mysql_command
select_lower = refl

mysql_never_panics_example :
    (parse_mysql_packet (0xff ∷ []) ≢ panic)
    × (parse_mysql_handshake (0xff ∷ []) ≢ panic)
    × (parse_mysql_query (0xff ∷ []) ≢ panic)
    × (parse_mysql_ok (0xff ∷ []) ≢ panic)
    × (parse_mysql_eof (0xff ∷ []) ≢ panic)
    × (parse_mysql_error (0xff ∷ []) ≢ panic)
mysql_never_panics_example = mysql_never_panics (0xff ∷ [])

space_is_space : is_space 32 ≡ true
unfolding is_space
space_is_space = refl
