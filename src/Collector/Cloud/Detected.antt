-- ===== src/Collector/Cloud/Detected.antt =====
-- The platform that Init finds, and whose metadata Start keeps.
use ebpf_probe.Prelude.{
  ◌≡◌, refl, ap, ◌∙◌, Bool, true, false, Option, none, some, List, [], ◌∷◌, map, Bytes, codes,
  if◌then◌else◌,
}
use ebpf_probe.Collector.Cloud.{
  CloudPlatform, cloud_none, cloud_aliyun, cloud_huawei, cloud_aws, cloud_gcp, cloud_azure,
  CloudMetadata, Services, CloudMetadataCollector, new_cloud_metadata_collector, detect_aliyun,
  detect_huawei, detect_aws, detect_gcp, detect_azure, detect_platform, init, collect_on, collect,
  collect_aliyun, collect_huawei, collect_aws, collect_gcp, collect_azure, with_metadata, start,
  get_metadata, fetch, fetch_with_header,
}

-- The platforms in the order of their tests, each with whether its test passes.
abbrev pub tests : Services → List (Bool × CloudPlatform)
tests net =
    (detect_aliyun net, cloud_aliyun)
    ∷ (detect_huawei net, cloud_huawei)
    ∷ (detect_aws net, cloud_aws)
    ∷ (detect_gcp net, cloud_gcp)
    ∷ (detect_azure net, cloud_azure)
    ∷ []

abbrev pub first_passed : List (Bool × CloudPlatform) → Option CloudPlatform
first_passed [] = none
first_passed ((true, p) ∷ platforms) = some p
first_passed ((false, p) ∷ platforms) = first_passed platforms

abbrev pub platform_or_none : Option CloudPlatform → CloudPlatform
platform_or_none none = cloud_none
platform_or_none (some p) = p

-- Where a field comes from: nowhere, the page at an address, or a string of the JSON object there;
-- a request has a header or none.
pub data Source : Type 0 where
  nothing : Source
  page : Option (Bytes × Bytes) → Bytes → Source
  key : Option (Bytes × Bytes) → Bytes → Bytes → Source

abbrev google : Option (Bytes × Bytes)
google = some (codes "Metadata-Flavor", codes "Google")

abbrev azure : Option (Bytes × Bytes)
azure = some (codes "Metadata", codes "true")

abbrev azure_url : Bytes
azure_url = codes "http://169.254.169.254/metadata/instance?api-version=2021-02-01"

-- The sources of the fields, in the order of the record: instance, its type, region, zone, VPC,
-- subnet, private and public address, host name, image.
abbrev pub sources : CloudPlatform → List Source
sources cloud_none = []
sources cloud_aliyun =
    page none (codes "http://100.100.100.200/latest/meta-data/instance-id")
    ∷ page none (codes "http://100.100.100.200/latest/meta-data/instance-type")
    ∷ page none (codes "http://100.100.100.200/latest/meta-data/region-id")
    ∷ page none (codes "http://100.100.100.200/latest/meta-data/zone-id")
    ∷ page none (codes "http://100.100.100.200/latest/meta-data/vpc-id")
    ∷ page none (codes "http://100.100.100.200/latest/meta-data/vswitch-id")
    ∷ page none (codes "http://100.100.100.200/latest/meta-data/private-ipv4")
    ∷ page none (codes "http://100.100.100.200/latest/meta-data/eipAddress")
    ∷ page none (codes "http://100.100.100.200/latest/meta-data/hostname")
    ∷ page none (codes "http://100.100.100.200/latest/meta-data/image-id")
    ∷ []
sources cloud_huawei =
    key none (codes "http://169.254.169.254/openstack/latest/meta_data.json") (codes "instance-id")
    ∷ nothing
    ∷ page none (codes "http://169.254.169.254/openstack/latest/region")
    ∷ nothing
    ∷ nothing
    ∷ nothing
    ∷ page none (codes "http://169.254.169.254/openstack/latest/local-ipv4")
    ∷ nothing
    ∷ key none (codes "http://169.254.169.254/openstack/latest/meta_data.json") (codes "hostname")
    ∷ page none (codes "http://169.254.169.254/openstack/latest/image_id")
    ∷ []
sources cloud_aws =
    page none (codes "http://169.254.169.254/latest/meta-data/instance-id")
    ∷ page none (codes "http://169.254.169.254/latest/meta-data/instance-type")
    ∷ page none (codes "http://169.254.169.254/latest/meta-data/placement/region")
    ∷ page none (codes "http://169.254.169.254/latest/meta-data/placement/availability-zone")
    ∷ nothing
    ∷ nothing
    ∷ page none (codes "http://169.254.169.254/latest/meta-data/local-ipv4")
    ∷ page none (codes "http://169.254.169.254/latest/meta-data/public-ipv4")
    ∷ page none (codes "http://169.254.169.254/latest/meta-data/local-hostname")
    ∷ page none (codes "http://169.254.169.254/latest/meta-data/ami-id")
    ∷ []
sources cloud_gcp =
    page google (codes "http://metadata.google.internal/computeMetadata/v1/instance/id")
    ∷ page google (codes "http://metadata.google.internal/computeMetadata/v1/instance/machine-type")
    ∷ page google (codes "http://metadata.google.internal/computeMetadata/v1/instance/zone")
    ∷ nothing
    ∷ nothing
    ∷ nothing
    ∷ page google
        (codes "http://metadata.google.internal/computeMetadata/v1/instance/network-interface/0/ip")
    ∷ nothing
    ∷ page google (codes "http://metadata.google.internal/computeMetadata/v1/instance/hostname")
    ∷ page google (codes "http://metadata.google.internal/computeMetadata/v1/instance/image")
    ∷ []
sources cloud_azure =
    key azure azure_url (codes "instanceId")
    ∷ nothing
    ∷ nothing
    ∷ nothing
    ∷ nothing
    ∷ nothing
    ∷ nothing
    ∷ nothing
    ∷ key azure azure_url (codes "name")
    ∷ nothing
    ∷ []

-- What a request brings: nothing when it fails.
abbrev pub body_of : Option Bytes → Bytes
body_of none = []
body_of (some body) = body

-- The string under a key, when there is a body and it is there.
abbrev pub string_of : Services → Bytes → Bytes → Bytes
string_of net [] k = []
string_of net (c ∷ body) k = body_of (net.string_in (c ∷ body) k)

abbrev pub field : Services → Source → Bytes
field net nothing = []
field net (page header url) = body_of (net.fetched url header)
field net (key header url k) = string_of net (body_of (net.fetched url header)) k

abbrev pub Description : Type 0
Description = Option (CloudPlatform × List Bytes)

-- The platform and the fields of the metadata.
abbrev pub description_of : Option CloudMetadata → Description
description_of none = none
description_of (some m) = some (
  m.platform,
  m.instance_id ∷ m.instance_type ∷ m.region ∷ m.zone ∷ m.vpc_id ∷ m.subnet_id ∷ m.private_ip
      ∷ m.public_ip ∷ m.hostname ∷ m.image_id ∷ [],
)

abbrev pub expected : Services → Option CloudPlatform → Description
expected net none = none
expected net (some p) = some (p, map (field net) (sources p))

-- The name of no platform is none.
abbrev pub as_option : CloudPlatform → Option CloudPlatform
as_option cloud_none = none
as_option p = some p

detect_platform-tests :
    (net : Services)
    → detect_platform net new_cloud_metadata_collector ≡ record new_cloud_metadata_collector {
      platform = platform_or_none (first_passed (tests net));
    }
unfolding detect_platform
detect_platform-tests net =
    five (detect_aliyun net) (detect_huawei net) (detect_aws net) (detect_gcp net)
      (detect_azure net)
  where
    with : CloudPlatform → CloudMetadataCollector
    with p = record new_cloud_metadata_collector { platform = p }

    five :
        (a b c d e : Bool)
        → (if a
            then with cloud_aliyun
            else if b
            then with cloud_huawei
            else if c
            then with cloud_aws
            else if d
            then with cloud_gcp
            else if e
            then with cloud_azure
            else new_cloud_metadata_collector)
          ≡ with (
              platform_or_none (
                first_passed (
                  (a, cloud_aliyun)
                  ∷ (b, cloud_huawei)
                  ∷ (c, cloud_aws)
                  ∷ (d, cloud_gcp)
                  ∷ (e, cloud_azure)
                  ∷ [])))
    five true b c d e = refl
    five false true c d e = refl
    five false false true d e = refl
    five false false false true e = refl
    five false false false false true = refl
    five false false false false false = refl

collect_on-sources :
    (net : Services) (p : CloudPlatform)
    → description_of (collect_on net p) ≡ expected net (as_option p)
unfolding collect_aliyun collect_huawei collect_aws collect_gcp collect_azure fetch
    fetch_with_header
collect_on-sources net cloud_none = refl
collect_on-sources net cloud_aliyun = refl
collect_on-sources net cloud_huawei = refl
collect_on-sources net cloud_aws = refl
collect_on-sources net cloud_gcp = refl
collect_on-sources net cloud_azure = refl

kept_metadata :
    (o : Option CloudMetadata) (p : CloudPlatform)
    → description_of
        (get_metadata (with_metadata o (record new_cloud_metadata_collector { platform = p })))
      ≡ description_of o
kept_metadata none p = refl
kept_metadata (some m) p = refl

-- A platform that is no constructor for none stays what it is.
as_option-cons :
    (b : Bool) (p : CloudPlatform) (platforms : List (Bool × CloudPlatform))
    → as_option p ≡ some p
    → as_option (platform_or_none (first_passed platforms)) ≡ first_passed platforms
    → as_option (platform_or_none (first_passed ((b, p) ∷ platforms)))
      ≡ first_passed ((b, p) ∷ platforms)
as_option-cons true p platforms named rest = named
as_option-cons false p platforms named rest = rest

first_passed-tests :
    (net : Services)
    → as_option (platform_or_none (first_passed (tests net))) ≡ first_passed (tests net)
first_passed-tests net = as_option-cons (detect_aliyun net) cloud_aliyun _ refl (
    as_option-cons (detect_huawei net) cloud_huawei _ refl (
      as_option-cons (detect_aws net) cloud_aws _ refl (
        as_option-cons (detect_gcp net) cloud_gcp _ refl
          (as_option-cons (detect_azure net) cloud_azure [] refl refl))))

-- After Init and Start of a new collector, whatever the services answer at each of the two, the
-- metadata are those of the first platform whose test passed at Init, in the order Aliyun, Huawei,
-- AWS, GCP, Azure, with each field read at Start from the address that the table has for it; and
-- there are none if no test passed.
pub start-tests :
    (before later : Services)
    → description_of (get_metadata (start later (init before new_cloud_metadata_collector)))
      ≡ expected later (first_passed (tests before))
unfolding start collect init
start-tests before later = rw (detect_platform-tests before) (
    kept_metadata (collect_on later (platform_or_none (first_passed (tests before))))
      (platform_or_none (first_passed (tests before)))
    ∙ (collect_on-sources later (platform_or_none (first_passed (tests before)))
        ∙ ap (expected later) (first_passed-tests before)))
