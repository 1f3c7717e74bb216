-- ===== src/Collector/Cloud/Tests.antt =====
-- A machine in AWS, whose service knows the name of the machine and nothing else.
use ebpf_probe.Prelude.{◌≡◌, refl, none, some, [], bytes_eq, codes, if◌then◌else◌}
use ebpf_probe.Collector.Cloud.{
  cloud_aws, Services, init, start, get_metadata, new_cloud_metadata_collector, detect_aliyun,
  detect_huawei, detect_aws,
}
use ebpf_probe.Collector.Cloud.Detected.{tests, first_passed, description_of, expected, start-tests}

abbrev in_aws : Services
in_aws = record {
  get = λ url.
      if bytes_eq url (codes "http://169.254.169.254/latest/meta-data/instance-id")
      then some (record { status_code = 200; header = λ name. [] })
      else none;
  fetched = λ url header. some (codes "404 - Not Found");
  string_in = λ body key. none;
}

start-tests_example :
    description_of (get_metadata (start in_aws (init in_aws new_cloud_metadata_collector)))
    ≡ expected in_aws (first_passed (tests in_aws))
start-tests_example = start-tests in_aws in_aws

aws_found : first_passed (tests in_aws) ≡ some cloud_aws
unfolding detect_aliyun detect_huawei detect_aws bytes_eq
aws_found = refl
