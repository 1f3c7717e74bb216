-- ===== src/Collector/Cloud.antt =====
-- cloud_metadata.go: which cloud the machine runs in, and its metadata. What the services answer
-- and the JSON decoder of the library are a record.
pub mod Detected
mod Tests
use ebpf_probe.Prelude.{
  ℕ, Bool, true, false, not, Option, none, some, List, [], ◌∷◌, ◌++◌, Outcome, ok, panic, Bytes,
  bytes_eq, codes, ◌==◌, if◌then◌else◌,
}

pub data CloudPlatform : Type 0 where
  cloud_none : CloudPlatform
  cloud_aliyun : CloudPlatform
  cloud_huawei : CloudPlatform
  cloud_aws : CloudPlatform
  cloud_gcp : CloudPlatform
  cloud_azure : CloudPlatform

pub record CloudMetadata : Type 0 where
  pub platform : CloudPlatform
  pub instance_id : Bytes
  pub instance_type : Bytes
  pub region : Bytes
  pub zone : Bytes
  pub vpc_id : Bytes
  pub subnet_id : Bytes
  pub private_ip : Bytes
  pub public_ip : Bytes
  pub hostname : Bytes
  pub image_id : Bytes

abbrev pub metadata_of : CloudPlatform → CloudMetadata
metadata_of platform = record {
  platform = platform;
  instance_id = [];
  instance_type = [];
  region = [];
  zone = [];
  vpc_id = [];
  subnet_id = [];
  private_ip = [];
  public_ip = [];
  hostname = [];
  image_id = [];
}

pub record Response : Type 0 where
  pub status_code : ℕ
  pub header : Bytes → Bytes

-- `get` is a plain request; `fetched` is the body of a request with a header or without one, or none
-- for an error; `string_in` is the string that a JSON object has under a key.
pub record Services : Type 0 where
  pub get : Bytes → Option Response
  pub fetched : Bytes → Option (Bytes × Bytes) → Option Bytes
  pub string_in : Bytes → Bytes → Option Bytes

pub record CloudMetadataCollector : Type 0 where
  pub platform : CloudPlatform
  pub metadata : Option CloudMetadata
  pub stop_closed : Bool

abbrev pub new_cloud_metadata_collector : CloudMetadataCollector
new_cloud_metadata_collector = record {
  platform = cloud_none;
  metadata = none;
  stop_closed = false;
}

abbrev pub is_ok : Option Response → Bool
is_ok none = false
is_ok (some resp) = resp.status_code == 200

abbrev pub has_header : Bytes → Bytes → Option Response → Bool
has_header name value none = false
has_header name value (some resp) = bytes_eq (resp.header name) value

unfoldable pub detect_aliyun : Services → Bool
detect_aliyun net = is_ok (net.get (codes "http://100.100.100.200/latest/meta-data/instance-id"))

unfoldable pub detect_huawei : Services → Bool
detect_huawei net = is_ok (net.get (codes "http://169.254.169.254/openstack/latest/meta_data.json"))

unfoldable pub detect_aws : Services → Bool
detect_aws net = is_ok (net.get (codes "http://169.254.169.254/latest/meta-data/instance-id"))

unfoldable pub detect_gcp : Services → Bool
unfolding bytes_eq
detect_gcp net =
    has_header (codes "Metadata-Flavor") (codes "Google")
      (net.get (codes "http://metadata.google.internal/computeMetadata/v1/instance/id"))

unfoldable pub detect_azure : Services → Bool
unfolding bytes_eq
detect_azure net =
    has_header (codes "Metadata") (codes "true")
      (net.get (codes "http://169.254.169.254/metadata/instance?api-version=2021-02-01"))

unfoldable pub detect_platform : Services → CloudMetadataCollector → CloudMetadataCollector
unfolding detect_aliyun detect_huawei detect_aws detect_gcp detect_azure
detect_platform net c =
    if detect_aliyun net
    then record c { platform = cloud_aliyun }
    else if detect_huawei net
    then record c { platform = cloud_huawei }
    else if detect_aws net
    then record c { platform = cloud_aws }
    else if detect_gcp net
    then record c { platform = cloud_gcp }
    else if detect_azure net
    then record c { platform = cloud_azure }
    else c

unfoldable pub init : Services → CloudMetadataCollector → CloudMetadataCollector
unfolding detect_platform
init net c = detect_platform net c

abbrev pub or_empty : Option Bytes → Bytes
or_empty none = []
or_empty (some body) = body

unfoldable pub fetch_with_header : Services → Bytes → Option (Bytes × Bytes) → Bytes
fetch_with_header net url header = or_empty (net.fetched url header)

unfoldable pub fetch : Services → Bytes → Bytes
unfolding fetch_with_header
fetch net url = fetch_with_header net url none

-- `if v, ok := meta[key].(string); ok`, on a body that is not empty.
abbrev pub string_or_empty : Services → Bytes → Bytes → Bytes
string_or_empty net [] key = []
string_or_empty net (c ∷ body) key = or_empty (net.string_in (c ∷ body) key)

unfoldable pub collect_aliyun : Services → CloudMetadata
unfolding fetch
collect_aliyun net =
    let base = codes "http://100.100.100.200/latest/meta-data" in
    record {
      platform = cloud_aliyun;
      instance_id = fetch net (base ++ codes "/instance-id");
      instance_type = fetch net (base ++ codes "/instance-type");
      region = fetch net (base ++ codes "/region-id");
      zone = fetch net (base ++ codes "/zone-id");
      vpc_id = fetch net (base ++ codes "/vpc-id");
      subnet_id = fetch net (base ++ codes "/vswitch-id");
      private_ip = fetch net (base ++ codes "/private-ipv4");
      public_ip = fetch net (base ++ codes "/eipAddress");
      hostname = fetch net (base ++ codes "/hostname");
      image_id = fetch net (base ++ codes "/image-id");
    }

unfoldable pub collect_huawei : Services → CloudMetadata
unfolding fetch
collect_huawei net =
    let base = codes "http://169.254.169.254/openstack/latest" in
    let body = fetch net (base ++ codes "/meta_data.json") in
    record (metadata_of cloud_huawei) {
      instance_id = string_or_empty net body (codes "instance-id");
      hostname = string_or_empty net body (codes "hostname");
      region = fetch net (base ++ codes "/region");
      private_ip = fetch net (base ++ codes "/local-ipv4");
      image_id = fetch net (base ++ codes "/image_id");
    }

unfoldable pub collect_aws : Services → CloudMetadata
unfolding fetch
collect_aws net =
    let base = codes "http://169.254.169.254/latest/meta-data" in
    record (metadata_of cloud_aws) {
      instance_id = fetch net (base ++ codes "/instance-id");
      instance_type = fetch net (base ++ codes "/instance-type");
      region = fetch net (base ++ codes "/placement/region");
      zone = fetch net (base ++ codes "/placement/availability-zone");
      private_ip = fetch net (base ++ codes "/local-ipv4");
      public_ip = fetch net (base ++ codes "/public-ipv4");
      hostname = fetch net (base ++ codes "/local-hostname");
      image_id = fetch net (base ++ codes "/ami-id");
    }

unfoldable pub collect_gcp : Services → CloudMetadata
unfolding fetch_with_header
collect_gcp net =
    let base = codes "http://metadata.google.internal/computeMetadata/v1" in
    let header = some (codes "Metadata-Flavor", codes "Google") in
    record (metadata_of cloud_gcp) {
      instance_id = fetch_with_header net (base ++ codes "/instance/id") header;
      instance_type = fetch_with_header net (base ++ codes "/instance/machine-type") header;
      region = fetch_with_header net (base ++ codes "/instance/zone") header;
      private_ip = fetch_with_header net (base ++ codes "/instance/network-interface/0/ip") header;
      hostname = fetch_with_header net (base ++ codes "/instance/hostname") header;
      image_id = fetch_with_header net (base ++ codes "/instance/image") header;
    }

unfoldable pub collect_azure : Services → CloudMetadata
unfolding fetch_with_header
collect_azure net =
    let url = codes "http://169.254.169.254/metadata/instance?api-version=2021-02-01" in
    let body = fetch_with_header net url (some (codes "Metadata", codes "true")) in
    record (metadata_of cloud_azure) {
      instance_id = string_or_empty net body (codes "instanceId");
      hostname = string_or_empty net body (codes "name");
    }

-- None is the error.
abbrev pub collect_on : Services → CloudPlatform → Option CloudMetadata
collect_on net cloud_none = none
collect_on net cloud_aliyun = some (collect_aliyun net)
collect_on net cloud_huawei = some (collect_huawei net)
collect_on net cloud_aws = some (collect_aws net)
collect_on net cloud_gcp = some (collect_gcp net)
collect_on net cloud_azure = some (collect_azure net)

unfoldable pub collect : Services → CloudMetadataCollector → Option CloudMetadata
unfolding collect_aliyun collect_huawei collect_aws collect_gcp collect_azure
collect net c = collect_on net c.platform

abbrev pub with_metadata : Option CloudMetadata → CloudMetadataCollector → CloudMetadataCollector
with_metadata none c = c
with_metadata (some m) c = record c { metadata = some m }

unfoldable pub start : Services → CloudMetadataCollector → CloudMetadataCollector
unfolding collect
start net c = with_metadata (collect net c) c

abbrev pub get_platform_name : CloudPlatform → Bytes
get_platform_name cloud_none = codes "unknown"
get_platform_name cloud_aliyun = codes "aliyun"
get_platform_name cloud_huawei = codes "huawei"
get_platform_name cloud_aws = codes "aws"
get_platform_name cloud_gcp = codes "gcp"
get_platform_name cloud_azure = codes "azure"

-- Closing a closed channel panics.
unfoldable pub stop : CloudMetadataCollector → Outcome ⊥ CloudMetadataCollector
stop c = if c.stop_closed then panic else ok (record c { stop_closed = true })

abbrev pub get_metadata : CloudMetadataCollector → Option CloudMetadata
get_metadata c = c.metadata
