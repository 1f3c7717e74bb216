-- ===== src/Offset/Table.antt =====
-- The query against one table of all pairs of names.
use ebpf_probe.Prelude.{
  ◌≡◌, refl, ap, ◌&&◌, Option, none, some, List, [], ◌∷◌, Bytes, bytes_eq, bytes_eq_sound, codes,
  if◌then◌else◌, inl, inr, Bool-cases,
}
use ebpf_probe.Prelude.Decimal.{ℤ}
use ebpf_probe.Offset.{
  KernelOffsets, OffsetDetector, struct_field, task_struct_field, sock_field, sock_common_field,
  socket_field, tcp_sock_field, known, set_offsets, get_offset,
}

-- The names of a structure and of a field, and the offset.
abbrev pub Row : Type 0
Row = (Bytes × Bytes) × ℤ

abbrev pub rows : KernelOffsets → List Row
rows o =
    ((codes "task_struct", codes "files"), o.task_struct.files)
    ∷ ((codes "task_struct", codes "cgroups"), o.task_struct.cgroups)
    ∷ ((codes "task_struct", codes "pid"), o.task_struct.pid)
    ∷ ((codes "task_struct", codes "tgid"), o.task_struct.tgid)
    ∷ ((codes "task_struct", codes "fdt"), o.task_struct.fdt)
    ∷ ((codes "task_struct", codes "private_data"), o.task_struct.priv_data)
    ∷ ((codes "sock", codes "sk_flags"), o.sock.sk_flags)
    ∷ ((codes "sock", codes "sk_protocol"), o.sock.sk_proto)
    ∷ ((codes "sock", codes "sk_type"), o.sock.sk_type)
    ∷ ((codes "sock_common", codes "skc_family"), o.sock_common.skc_family)
    ∷ ((codes "sock_common", codes "skc_state"), o.sock_common.skc_state)
    ∷ ((codes "socket", codes "file"), o.socket.file)
    ∷ ((codes "socket", codes "sk"), o.socket.sk)
    ∷ ((codes "tcp_sock", codes "copied_seq"), o.tcp_sock.copied_seq)
    ∷ ((codes "tcp_sock", codes "write_seq"), o.tcp_sock.write_seq)
    ∷ ((codes "tcp_sock", codes "retrans_out"), o.tcp_sock.retrans_out)
    ∷ ((codes "tcp_sock", codes "total_retrans"), o.tcp_sock.total_retrans)
    ∷ ((codes "tcp_sock", codes "advmss"), o.tcp_sock.adv_mss)
    ∷ ((codes "tcp_sock", codes "srtt_us"), o.tcp_sock.srtt_us)
    ∷ ((codes "tcp_sock", codes "snd_wnd"), o.tcp_sock.snd_wnd)
    ∷ ((codes "tcp_sock", codes "rcv_wnd"), o.tcp_sock.rcv_wnd)
    ∷ ((codes "tcp_sock", codes "snd_cwnd"), o.tcp_sock.snd_cwnd)
    ∷ ((codes "tcp_sock", codes "lost_out"), o.tcp_sock.lost_out)
    ∷ []

-- The offset of the first row with both names.
unfoldable pub find_row : Bytes → Bytes → List Row → Option ℤ
unfolding bytes_eq
find_row name field [] = none
find_row name field (row ∷ rest) =
    if bytes_eq name row.0.0 && bytes_eq field row.0.1 then some row.1 else find_row name field rest

struct_field-rows :
    (o : KernelOffsets) (name field : Bytes)
    → struct_field o name field ≡ find_row name field (rows o)
unfolding struct_field task_struct_field sock_field sock_common_field socket_field tcp_sock_field
    find_row bytes_eq
struct_field-rows o name field = elim (Bool-cases (bytes_eq name (codes "task_struct"))) [
  | inl h ↦ rw (bytes_eq_sound name (codes "task_struct") h) refl
  | inr a ↦ elim (Bool-cases (bytes_eq name (codes "sock"))) [
    | inl h ↦ rw (bytes_eq_sound name (codes "sock") h) refl
    | inr b ↦ elim (Bool-cases (bytes_eq name (codes "sock_common"))) [
      | inl h ↦ rw (bytes_eq_sound name (codes "sock_common") h) refl
      | inr c ↦ elim (Bool-cases (bytes_eq name (codes "socket"))) [
        | inl h ↦ rw (bytes_eq_sound name (codes "socket") h) refl
        | inr e ↦ elim (Bool-cases (bytes_eq name (codes "tcp_sock"))) [
          | inl h ↦ rw (bytes_eq_sound name (codes "tcp_sock") h) refl
          | inr f ↦ rw a (rw b (rw c (rw e (rw f refl))))
        ]
      ]
    ]
  ]
]

-- Once offsets are set, the query finds what the table of all pairs of names has for its two names,
-- and is an error for any pair that is not there.
pub get_offset-rows :
    (o : KernelOffsets) (d : OffsetDetector) (name field : Bytes)
    → get_offset (set_offsets o d) name field ≡ known (find_row name field (rows o))
unfolding get_offset set_offsets
get_offset-rows o d name field = ap known (struct_field-rows o name field)
