-- ===== src/Devices/Examples.antt =====
-- The setup with a kernel that refuses the twelfth call, the second `cdev` of a group.
use dazukofs_linux.Base.{refl, none, some, [], ◌==◌, if◌then◌else◌}
use dazukofs_linux.Events.State.{enomem}
use dazukofs_linux.Events.System.{start}
use dazukofs_linux.Devices.{Held, Kernel, dazukofs_dev_init}
use dazukofs_linux.Devices.Stages.{Ends, all_held}
use dazukofs_linux.Devices.Proofs.{dazukofs_dev_init-Ends}
use dazukofs_linux.Devices.Loading.{init_dazukofs_fs}
use dazukofs_linux.Devices.Unloading.{loaded, init_dazukofs_fs-Ends}

abbrev refusing : Kernel
refusing n = if n == 11 then some enomem else none

abbrev nothing : Held
nothing = record { resources = []; calls = 0 }

dazukofs_dev_init-Ends_example : Ends [] all_held (dazukofs_dev_init refusing 0 start.state nothing)
dazukofs_dev_init-Ends_example = dazukofs_dev_init-Ends refusing start.state nothing refl refl

init_dazukofs_fs-Ends_example : Ends [] loaded (init_dazukofs_fs refusing 0 start.state nothing)
init_dazukofs_fs-Ends_example = init_dazukofs_fs-Ends refusing start.state nothing refl refl
