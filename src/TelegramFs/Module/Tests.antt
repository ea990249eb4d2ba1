-- ===== src/TelegramFs/Module/Tests.antt =====
-- Loading and unloading with a kernel that refuses the device of the bus.
use doomsday_kernel_modules.Base.{◌≡◌, refl, true}
use doomsday_kernel_modules.TelegramFs.Module.{Answers, nothing, telegram_init}
use doomsday_kernel_modules.TelegramFs.Module.Clean.{load_unload, IsClean, telegram_init-IsClean}

abbrev no_bus_cdev : Answers
no_bus_cdev = record {
  chats_region_error = 0;
  class_error = 0;
  chat_cdev_adds = λ i. true;
  chat_device_creates = λ i. true;
  bus_region_error = 0;
  bus_cdev_error = 12;
  bus_device_creates = true;
}

refused_test : (telegram_init no_bus_cdev nothing).0 ≡ 12
unfolding telegram_init
refused_test = refl

load_unload_example : IsClean (load_unload no_bus_cdev)
load_unload_example = telegram_init-IsClean no_bus_cdev
