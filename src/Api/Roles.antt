-- ===== src/Api/Roles.antt =====
-- The three roles of a service, and what its spec says inline of each.
use pd_manager.Common.{String, List}
use pd_manager.Api.Service.{PdInferenceServiceSpec, VolumeMountSpec}

pub data Role : Type 0 where
  router prefill decode : Role

abbrev pub inline_image : PdInferenceServiceSpec → Role → String
inline_image spec router = spec.router.image
inline_image spec prefill = spec.prefill.image
inline_image spec decode = spec.decode.image

abbrev pub inline_command : PdInferenceServiceSpec → Role → List String
inline_command spec router = spec.router.command
inline_command spec prefill = spec.prefill.command
inline_command spec decode = spec.decode.command

abbrev pub inline_args : PdInferenceServiceSpec → Role → List String
inline_args spec router = spec.router.args
inline_args spec prefill = spec.prefill.args
inline_args spec decode = spec.decode.args

abbrev pub inline_mounts : PdInferenceServiceSpec → Role → List VolumeMountSpec
inline_mounts spec router = spec.router.volume_mounts
inline_mounts spec prefill = spec.prefill.volume_mounts
inline_mounts spec decode = spec.decode.volume_mounts

abbrev pub role_name : Role → String
role_name router = "router"
role_name prefill = "prefill"
role_name decode = "decode"
