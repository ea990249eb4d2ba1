-- ===== src/TelegramFs/Module.antt =====
-- `telegram_init` and `telegram_exit` of telegram-fs/kmodule/main.c: what they register in the kernel, by
-- what the kernel answers. Errors are positive numbers; 0 is success. Giving back what is not registered
-- changes nothing.
pub mod Clean
mod Tests
use doomsday_kernel_modules.Base.{
  ℕ, zero, suc, ◌+◌, ◌≡◌, Bool, true, false, List, [], replicate, ◌==◌, if◌then◌else◌,
}
use doomsday_kernel_modules.TelegramFs.Bus.{Bus, bus_queue_size, no_message}
use doomsday_kernel_modules.TelegramFs.Chat.{Chat, Telegram, max_chats, msg_buff_size}

-- The answers of the kernel. The results of `cdev_add` and `device_create` for a chat are not looked at.
pub record Answers : Type 0 where
  pub chats_region_error : ℕ
  pub class_error : ℕ
  pub chat_cdev_adds : ℕ → Bool
  pub chat_device_creates : ℕ → Bool
  pub bus_region_error : ℕ
  pub bus_cdev_error : ℕ
  pub bus_device_creates : Bool

-- What the module has registered; chats by their numbers.
pub record Registered : Type 0 where
  pub chats_region : Bool
  pub class : Bool
  pub chat_cdev : ℕ → Bool
  pub chat_device : ℕ → Bool
  pub bus_region : Bool
  pub bus_cdev : Bool
  pub bus_device : Bool

abbrev pub nothing : Registered
nothing = record {
  chats_region = false;
  class = false;
  chat_cdev = λ i. false;
  chat_device = λ i. false;
  bus_region = false;
  bus_cdev = false;
  bus_device = false;
}

abbrev pub update : (ℕ → Bool) → ℕ → Bool → ℕ → Bool
update f i v j = if i == j then v else f j

-- `for (i = 0; i < MAX_CHATS; i++) { ... cdev_add(...); device_create(...); }`
unfoldable pub add_chats : Answers → ℕ → ℕ → Registered → Registered
add_chats answers zero i reg = reg
add_chats answers (suc left) i reg = add_chats answers left (i + 1) record reg {
  chat_cdev = update reg.chat_cdev i (answers.chat_cdev_adds i);
  chat_device = update reg.chat_device i (answers.chat_device_creates i);
}

-- `for (i = 0; i < MAX_CHATS; i++) { device_destroy(...); cdev_del(...); }`
unfoldable pub remove_chats : ℕ → ℕ → Registered → Registered
remove_chats zero i reg = reg
remove_chats (suc left) i reg = remove_chats left (i + 1) record reg {
  chat_device = update reg.chat_device i false;
  chat_cdev = update reg.chat_cdev i false;
}

-- From the label `err_bus_region` on, and the end of `telegram_exit`.
unfoldable pub err_bus_region : Registered → Registered
unfolding remove_chats
err_bus_region reg = record (remove_chats max_chats 0 reg) { class = false; chats_region = false }

-- The part of `telegram_init` behind the chats.
unfoldable pub add_bus : Answers → Registered → ℕ × Registered
unfolding err_bus_region
add_bus answers reg =
    let reg' = record reg { bus_region = true } in
    let reg'' = record reg' { bus_cdev = true; bus_device = answers.bus_device_creates } in
    if answers.bus_region_error == 0
    then (if answers.bus_cdev_error == 0
        then (0, reg'')
        else (answers.bus_cdev_error, err_bus_region record reg' { bus_region = false }))
    else (answers.bus_region_error, err_bus_region reg)

unfoldable pub telegram_init : Answers → Registered → ℕ × Registered
unfolding add_chats add_bus
telegram_init answers reg =
    let with_region = record reg { chats_region = true } in
    let with_class = record with_region { class = true } in
    let rest = add_bus answers (add_chats answers max_chats 0 with_class) in
    if answers.chats_region_error == 0
    then (if answers.class_error == 0
        then rest
        else (answers.class_error, record with_region { chats_region = false }))
    else (answers.chats_region_error, reg)

unfoldable pub telegram_exit : Registered → Registered
unfolding err_bus_region
telegram_exit reg =
    err_bus_region record reg { bus_device = false; bus_cdev = false; bus_region = false }

-- The global variables as the module finds them, and as `telegram_init` leaves them.
unfoldable pub loaded_state : Telegram
loaded_state = record {
  chats =
      replicate max_chats record { buffer = replicate msg_buff_size 0; buf_len = 0; chat_id = [] };
  tg_bus = record { queue = replicate bus_queue_size no_message; count = 0; head = 0; tail = 0 };
}
