-- ===== src/Config/Roles.antt =====
-- What a profile and a merged configuration say of each role.
use pd_manager.Common.{String, Option, none, some, List, []}
use pd_manager.Api.{PdEngineProfile, RoleImages, RoleCommands, RoleArgs, RoleEngineRuntimes}
use pd_manager.Api.{Role, router, prefill, decode}
use pd_manager.Config.{MergedConfig}

abbrev image_of : RoleImages → Role → String
image_of images router = images.router
image_of images prefill = images.prefill
image_of images decode = images.decode

abbrev command_of : Option RoleCommands → Role → List String
command_of none r = []
command_of (some c) router = c.router
command_of (some c) prefill = c.prefill
command_of (some c) decode = c.decode

abbrev args_of : Option RoleArgs → Role → List String
args_of none r = []
args_of (some a) router = a.router
args_of (some a) prefill = a.prefill
args_of (some a) decode = a.decode

-- The defaults that a profile supplies; without a profile there are none.
abbrev pub default_image : Option PdEngineProfile → Role → String
default_image none r = ""
default_image (some profile) r = image_of profile.spec.images r

abbrev pub default_command : Option PdEngineProfile → Role → List String
default_command none r = []
default_command (some profile) r = command_of profile.spec.role_commands r

abbrev pub default_args : Option PdEngineProfile → Role → List String
default_args none r = []
default_args (some profile) r = args_of profile.spec.role_args r

abbrev pub merged_image : MergedConfig → Role → String
merged_image cfg r = image_of cfg.images r

abbrev pub merged_command : MergedConfig → Role → List String
merged_command cfg router = cfg.router_command
merged_command cfg prefill = cfg.prefill_command
merged_command cfg decode = cfg.decode_command

abbrev pub merged_args : MergedConfig → Role → List String
merged_args cfg router = cfg.router_args
merged_args cfg prefill = cfg.prefill_args
merged_args cfg decode = cfg.decode_args

abbrev pub default_runtimes : Option PdEngineProfile → Option RoleEngineRuntimes
default_runtimes none = none
default_runtimes (some profile) = profile.spec.engine_runtimes
