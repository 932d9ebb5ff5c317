-- ===== src/Translator/Volumes.antt =====
-- Volumes and volume mounts.
use pd_manager.Common.{String, Option, none, some, List, [], ◌∷◌, map, ◌==◌, if◌then◌else◌}
use pd_manager.Common.Panics.{◌>>=◌}
use pd_manager.Api.{VolumeSpec, VolumeMountSpec, HostPathVolume, EmptyDirVolume, PvcVolume}
use pd_manager.Workload.{Volume, VolumeSource, VolumeMount}

-- `corev1.HostPathDirectory`
abbrev host_path_directory : String
host_path_directory = "Directory"

abbrev pub build_volume_mount : VolumeMountSpec → VolumeMount
build_volume_mount m = record { name = m.name; mount_path = m.mount_path; read_only = m.read_only }

unfoldable pub build_volume_mounts : List VolumeMountSpec → List VolumeMount
build_volume_mounts mounts = map build_volume_mount mounts

module _ {Q : Type 0} where
  abbrev pub host_path_source : HostPathVolume → VolumeSource Q
  host_path_source h = record {
    host_path = some (record {
      path = h.path;
      type = some (if h.type == "" then host_path_directory else h.type);
    });
    empty_dir = none;
    persistent_volume_claim = none;
  }

  abbrev pub pvc_source : Option PvcVolume → VolumeSource Q
  pvc_source none = record { host_path = none; empty_dir = none; persistent_volume_claim = none }
  pvc_source (some c) = record {
    host_path = none;
    empty_dir = none;
    persistent_volume_claim = some (record { claim_name = c.claim_name });
  }

module _ {Q : Type 0} (parse_quantity : String → Option Q) where
  -- `if SizeLimit != "" { q := resource.MustParse(SizeLimit); … }`
  abbrev pub size_limit_of : String → Option (Option Q)
  size_limit_of text =
      if text == "" then some none else (parse_quantity text >>= λ q. some (some q))

  abbrev empty_dir_source : EmptyDirVolume → Option (VolumeSource Q)
  empty_dir_source e = do
    limit ← size_limit_of e.size_limit
    some (record {
      host_path = none;
      empty_dir = some (record { medium = e.medium; size_limit = limit });
      persistent_volume_claim = none;
    })

  -- The `switch` of `buildVolumes`: the first source that is set.
  abbrev pub volume_source :
      Option HostPathVolume → Option EmptyDirVolume → Option PvcVolume → Option (VolumeSource Q)
  volume_source (some h) empty_dir pvc = some (host_path_source h)
  volume_source none (some e) pvc = empty_dir_source e
  volume_source none none pvc = some (pvc_source pvc)

  unfoldable pub build_volume : VolumeSpec → Option (Volume Q)
  build_volume v = do
    source ← volume_source v.host_path v.empty_dir v.pvc
    some (record { name = v.name; source = source })

  unfoldable pub build_volumes : List VolumeSpec → Option (List (Volume Q))
  build_volumes [] = some []
  build_volumes (v ∷ spec_volumes) = do
    vol ← build_volume v
    volumes ← build_volumes spec_volumes
    some (vol ∷ volumes)
