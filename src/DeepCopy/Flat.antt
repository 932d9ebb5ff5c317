-- ===== src/DeepCopy/Flat.antt =====
-- The deep copies of the types that hold no reference: `*out = *in`.
use pd_manager.Api.{
  ModelSizeRange, EmptyDirVolume, EventRecord, HostPathVolume, PvcVolume, ProbeSpec, RoleImages,
  RoleStatus, VolumeMountSpec,
}
use pd_manager.DeepCopy.Alloc.{Ptr, Alloc, pure, copy_ptr}

-- `PDEngineProfileStatus`, which has no field.
pub record PdEngineProfileStatus : Type 0 where

abbrev model_size_range_deep_copy_into : ModelSizeRange → Alloc ModelSizeRange
model_size_range_deep_copy_into x = pure x

abbrev model_size_range_deep_copy : Ptr ModelSizeRange → Alloc (Ptr ModelSizeRange)
model_size_range_deep_copy = copy_ptr model_size_range_deep_copy_into

abbrev empty_dir_volume_deep_copy_into : EmptyDirVolume → Alloc EmptyDirVolume
empty_dir_volume_deep_copy_into x = pure x

abbrev empty_dir_volume_deep_copy : Ptr EmptyDirVolume → Alloc (Ptr EmptyDirVolume)
empty_dir_volume_deep_copy = copy_ptr empty_dir_volume_deep_copy_into

abbrev event_record_deep_copy_into : EventRecord → Alloc EventRecord
event_record_deep_copy_into x = pure x

abbrev event_record_deep_copy : Ptr EventRecord → Alloc (Ptr EventRecord)
event_record_deep_copy = copy_ptr event_record_deep_copy_into

abbrev host_path_volume_deep_copy_into : HostPathVolume → Alloc HostPathVolume
host_path_volume_deep_copy_into x = pure x

abbrev host_path_volume_deep_copy : Ptr HostPathVolume → Alloc (Ptr HostPathVolume)
host_path_volume_deep_copy = copy_ptr host_path_volume_deep_copy_into

abbrev pvc_volume_deep_copy_into : PvcVolume → Alloc PvcVolume
pvc_volume_deep_copy_into x = pure x

abbrev pvc_volume_deep_copy : Ptr PvcVolume → Alloc (Ptr PvcVolume)
pvc_volume_deep_copy = copy_ptr pvc_volume_deep_copy_into

abbrev probe_spec_deep_copy_into : ProbeSpec → Alloc ProbeSpec
probe_spec_deep_copy_into x = pure x

abbrev probe_spec_deep_copy : Ptr ProbeSpec → Alloc (Ptr ProbeSpec)
probe_spec_deep_copy = copy_ptr probe_spec_deep_copy_into

abbrev role_images_deep_copy_into : RoleImages → Alloc RoleImages
role_images_deep_copy_into x = pure x

abbrev role_images_deep_copy : Ptr RoleImages → Alloc (Ptr RoleImages)
role_images_deep_copy = copy_ptr role_images_deep_copy_into

abbrev role_status_deep_copy_into : RoleStatus → Alloc RoleStatus
role_status_deep_copy_into x = pure x

abbrev role_status_deep_copy : Ptr RoleStatus → Alloc (Ptr RoleStatus)
role_status_deep_copy = copy_ptr role_status_deep_copy_into

abbrev volume_mount_spec_deep_copy_into : VolumeMountSpec → Alloc VolumeMountSpec
volume_mount_spec_deep_copy_into x = pure x

abbrev volume_mount_spec_deep_copy : Ptr VolumeMountSpec → Alloc (Ptr VolumeMountSpec)
volume_mount_spec_deep_copy = copy_ptr volume_mount_spec_deep_copy_into

abbrev engine_profile_status_deep_copy_into : PdEngineProfileStatus → Alloc PdEngineProfileStatus
engine_profile_status_deep_copy_into x = pure x

abbrev engine_profile_status_deep_copy :
    Ptr PdEngineProfileStatus → Alloc (Ptr PdEngineProfileStatus)
engine_profile_status_deep_copy = copy_ptr engine_profile_status_deep_copy_into
