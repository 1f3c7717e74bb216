-- ===== src/Offset.antt =====
-- pkg/offset/detector.go: the offsets of the kernel's structures, the detector that holds them, and
-- the query for one of them. The detection itself is in Detect.
pub mod Detect
pub mod Table
pub mod Sources
mod Tests
use ebpf_probe.Prelude.{
  ℕ, Bool, true, false, Option, none, some, List, [], ◌∷◌, Outcome, ok, err, panic, Bytes, bytes_eq,
  codes, if◌then◌else◌,
}
use ebpf_probe.Prelude.Decimal.{ℤ, pos, negsuc}

pub record TaskStructOffsets : Type 0 where
  pub files : ℤ
  pub cgroups : ℤ
  pub pid : ℤ
  pub tgid : ℤ
  pub fdt : ℤ
  pub priv_data : ℤ

pub record SockOffsets : Type 0 where
  pub sk_flags : ℤ
  pub sk_proto : ℤ
  pub sk_type : ℤ

pub record SockCommonOffsets : Type 0 where
  pub skc_family : ℤ
  pub skc_state : ℤ

pub record SocketOffsets : Type 0 where
  pub file : ℤ
  pub sk : ℤ

pub record TcpSockOffsets : Type 0 where
  pub copied_seq : ℤ
  pub write_seq : ℤ
  pub retrans_out : ℤ
  pub total_retrans : ℤ
  pub adv_mss : ℤ
  pub srtt_us : ℤ
  pub snd_wnd : ℤ
  pub rcv_wnd : ℤ
  pub snd_cwnd : ℤ
  pub lost_out : ℤ

pub record CgroupOffsets : Type 0 where
  pub path : ℤ
  pub d_name : ℤ

pub record SkBuffOffsets : Type 0 where
  pub network_header : ℤ
  pub head : ℤ

pub record RequestOffsets : Type 0 where
  pub cmd_flags : ℤ
  pub data_len : ℤ
  pub sector : ℤ
  pub rq_disk : ℤ
  pub start_time_ns : ℤ
  pub io_start_time_ns : ℤ
  pub disk : ℤ

pub record KernelOffsets : Type 0 where
  pub kernel_version : Bytes
  pub task_struct : TaskStructOffsets
  pub sock : SockOffsets
  pub sock_common : SockCommonOffsets
  pub socket : SocketOffsets
  pub tcp_sock : TcpSockOffsets
  pub cgroup : CgroupOffsets
  pub sk_buff : SkBuffOffsets
  pub request : RequestOffsets

pub record OffsetDetector : Type 0 where
  pub mode : Bytes
  pub manual_path : Bytes
  pub offsets : Option KernelOffsets
  pub kernel_ver : Bytes

unfoldable pub new_offset_detector : Bytes → Bytes → OffsetDetector
new_offset_detector mode manual_path = record {
  mode = mode;
  manual_path = manual_path;
  offsets = none;
  kernel_ver = [];
}

unfoldable pub set_offsets : KernelOffsets → OffsetDetector → OffsetDetector
set_offsets o d = record d { offsets = some o }

abbrev pub amd64_offsets : KernelOffsets
amd64_offsets = record {
  kernel_version = codes "default";
  task_struct = record {
    files = pos 1992;
    cgroups = pos 2360;
    pid = pos 1440;
    tgid = pos 1444;
    fdt = pos 32;
    priv_data = pos 192;
  };
  sock = record { sk_flags = pos 528; sk_proto = pos 544; sk_type = pos 544 };
  sock_common = record { skc_family = pos 16; skc_state = pos 18 };
  socket = record { file = pos 24; sk = pos 32 };
  tcp_sock = record {
    copied_seq = pos 1628;
    write_seq = pos 1996;
    retrans_out = pos 1864;
    total_retrans = pos 2288;
    adv_mss = pos 1776;
    srtt_us = pos 1816;
    snd_wnd = pos 1732;
    rcv_wnd = pos 1992;
    snd_cwnd = pos 1920;
    lost_out = pos 2008;
  };
  cgroup = record { path = pos 0; d_name = pos 0 };
  sk_buff = record { network_header = pos 196; head = pos 208 };
  request = record {
    cmd_flags = pos 0;
    data_len = pos 0;
    sector = pos 0;
    rq_disk = pos 0;
    start_time_ns = pos 0;
    io_start_time_ns = pos 0;
    disk = pos 0;
  };
}

-- The inner switches of GetOffset.
unfoldable pub task_struct_field : TaskStructOffsets → Bytes → Option ℤ
unfolding bytes_eq
task_struct_field t field =
    if bytes_eq field (codes "files")
    then some t.files
    else if bytes_eq field (codes "cgroups")
    then some t.cgroups
    else if bytes_eq field (codes "pid")
    then some t.pid
    else if bytes_eq field (codes "tgid")
    then some t.tgid
    else if bytes_eq field (codes "fdt")
    then some t.fdt
    else if bytes_eq field (codes "private_data")
    then some t.priv_data
    else none

unfoldable pub sock_field : SockOffsets → Bytes → Option ℤ
unfolding bytes_eq
sock_field s field =
    if bytes_eq field (codes "sk_flags")
    then some s.sk_flags
    else if bytes_eq field (codes "sk_protocol")
    then some s.sk_proto
    else if bytes_eq field (codes "sk_type")
    then some s.sk_type
    else none

unfoldable pub sock_common_field : SockCommonOffsets → Bytes → Option ℤ
unfolding bytes_eq
sock_common_field s field =
    if bytes_eq field (codes "skc_family")
    then some s.skc_family
    else if bytes_eq field (codes "skc_state")
    then some s.skc_state
    else none

unfoldable pub socket_field : SocketOffsets → Bytes → Option ℤ
unfolding bytes_eq
socket_field s field =
    if bytes_eq field (codes "file")
    then some s.file
    else if bytes_eq field (codes "sk")
    then some s.sk
    else none

unfoldable pub tcp_sock_field : TcpSockOffsets → Bytes → Option ℤ
unfolding bytes_eq
tcp_sock_field t field =
    if bytes_eq field (codes "copied_seq")
    then some t.copied_seq
    else if bytes_eq field (codes "write_seq")
    then some t.write_seq
    else if bytes_eq field (codes "retrans_out")
    then some t.retrans_out
    else if bytes_eq field (codes "total_retrans")
    then some t.total_retrans
    else if bytes_eq field (codes "advmss")
    then some t.adv_mss
    else if bytes_eq field (codes "srtt_us")
    then some t.srtt_us
    else if bytes_eq field (codes "snd_wnd")
    then some t.snd_wnd
    else if bytes_eq field (codes "rcv_wnd")
    then some t.rcv_wnd
    else if bytes_eq field (codes "snd_cwnd")
    then some t.snd_cwnd
    else if bytes_eq field (codes "lost_out")
    then some t.lost_out
    else none

unfoldable pub struct_field : KernelOffsets → Bytes → Bytes → Option ℤ
unfolding task_struct_field sock_field sock_common_field socket_field tcp_sock_field bytes_eq
struct_field o name field =
    if bytes_eq name (codes "task_struct")
    then task_struct_field o.task_struct field
    else if bytes_eq name (codes "sock")
    then sock_field o.sock field
    else if bytes_eq name (codes "sock_common")
    then sock_common_field o.sock_common field
    else if bytes_eq name (codes "socket")
    then socket_field o.socket field
    else if bytes_eq name (codes "tcp_sock")
    then tcp_sock_field o.tcp_sock field
    else none

pub data OffsetError : Type 0 where
  not_detected : OffsetError
  unknown_field : OffsetError

unfoldable pub known : Option ℤ → Outcome OffsetError ℤ
known none = err unknown_field
known (some n) = ok n

abbrev offset_in : Option KernelOffsets → Bytes → Bytes → Outcome OffsetError ℤ
offset_in none name field = err not_detected
offset_in (some o) name field = known (struct_field o name field)

unfoldable pub get_offset : OffsetDetector → Bytes → Bytes → Outcome OffsetError ℤ
unfolding known
get_offset d name field = offset_in d.offsets name field
