-- ===== src/TelegramFs/Chat.antt =====
-- The chats of telegram-fs/kmodule/chat.c, and `bus_write` of telegram-fs/kmodule/bus.c, which
-- changes them. Each function is one step: a
-- mutex is held throughout, but for a read while it waits, and for `chat_write` between the chat, whose mutex it
-- lets go, and the bus, whose mutex it takes then; what others do in between is not modelled.
pub mod Text
pub mod Writes
pub mod Commands
pub mod Stream
use doomsday_kernel_modules.Base.{
  c_text, ℕ, ◌+◌, ◌-◌, ◌≡◌, Bool, true, false, ◌&&◌, Option, none, some, List, [], ◌∷◌, ◌++◌, ltb,
  leb, ◌==◌, min, if◌then◌else◌, length, get_or, set, take, drop, ◌>>=◌,
}
use doomsday_kernel_modules.TelegramFs.Kernel.{Kernel, ℤ, pos, negsuc}
use doomsday_kernel_modules.TelegramFs.Bus.{
  Bus, Outcome, done, error, waiting, eagain, erestartsys, efault, einval, Wake, signal, woken,
  bus_message_size, bus_enqueue_outgoing,
}

abbrev pub max_chats : ℕ
max_chats = 10

abbrev pub msg_buff_size : ℕ
msg_buff_size = 4096

abbrev pub chat_id_buff_size : ℕ
chat_id_buff_size = 64

-- `buffer` has all the bytes of the array, `chat_id` is a text.
pub record Chat : Type 0 where
  pub buffer : List ℕ
  pub buf_len : ℕ
  pub chat_id : List ℕ

-- The global variables `chats` and `tg_bus`.
pub record Telegram : Type 0 where
  pub chats : List Chat
  pub tg_bus : Bus

abbrev pub no_chat : Chat
no_chat = record { buffer = []; buf_len = 0; chat_id = [] }

-- Bytes written into an array from an index on.
unfoldable pub write_at : List ℕ → ℕ → List ℕ → List ℕ
write_at array at bytes = take at array ++ (bytes ++ drop (at + length bytes) array)

-- `chat_read` with the lock held and bytes at hand: what is copied, the new position.
unfoldable pub chat_take : Chat → ℕ → ℕ → Bool → Outcome (List ℕ) × ℕ
chat_take chat ppos count copied =
    let n = min count (chat.buf_len - ppos) in
    if copied then (done (take n (drop ppos chat.buffer)), ppos + n) else (error efault, ppos)

-- `chat_read` with the ends of its waits in order.
unfoldable pub chat_read : Chat → ℕ → Bool → ℕ → Bool → List (Wake Chat) → Outcome (List ℕ) × ℕ
unfolding chat_take
chat_read chat ppos nonblock count copied [] =
    if leb chat.buf_len ppos
    then (if nonblock then (error eagain, ppos) else (waiting, ppos))
    else chat_take chat ppos count copied
chat_read chat ppos nonblock count copied (signal ∷ wakes) =
    if leb chat.buf_len ppos
    then (if nonblock then (error eagain, ppos) else (error erestartsys, ppos))
    else chat_take chat ppos count copied
chat_read chat ppos nonblock count copied (woken chat' ∷ wakes) =
    let again = chat_read chat' ppos nonblock count copied wakes in
    if leb chat.buf_len ppos
    then (if nonblock then (error eagain, ppos) else again)
    else chat_take chat ppos count copied

-- Whether `chat_poll` reports the chat as writable and as readable.
unfoldable pub chat_poll : Chat → ℕ → Bool × Bool
chat_poll chat f_pos = (true, ltb f_pos chat.buf_len)

-- `strcmp(a, b) == 0`
unfoldable pub same_text : List ℕ → List ℕ → Bool
same_text [] [] = true
same_text [] (y ∷ ys) = false
same_text (x ∷ xs) [] = false
same_text (x ∷ xs) (y ∷ ys) = (x == y) && same_text xs ys

-- What a write to the bus asks for.
pub data Command : Type 0 where
  -- IN|<idx>|<sender>|<message>
  incoming : ℕ → List ℕ → List ℕ → Command
  -- SET|<idx>|<telegram_chat_id>
  bind_chat : ℕ → List ℕ → Command

module _ (kernel : Kernel) where
  open kernel use {scnprintf, strscpy, strsep, kstrtoint}

  -- `scnprintf` at the end of the text of a chat, which also writes a closing zero.
  unfoldable pub chat_append : Chat → List ℕ → Chat
  unfolding write_at
  chat_append chat text =
      let room = msg_buff_size - chat.buf_len in
      let bytes = scnprintf room text in
      if room == 0 then chat else record chat {
        buffer = write_at chat.buffer chat.buf_len (bytes ++ (0 ∷ []));
        buf_len = chat.buf_len + length bytes;
      }

  -- The text of `"[User] %s\n"`.
  unfoldable pub user_text : List ℕ → List ℕ
  user_text msg = (b'[' ∷ b'U' ∷ b's' ∷ b'e' ∷ b'r' ∷ b']' ∷ b' ' ∷ []) ++ (c_text msg ++ (10 ∷ []))

  -- The text of `"[%s] %s\n"`.
  unfoldable pub sender_text : List ℕ → List ℕ → List ℕ
  sender_text sender msg = (b'[' ∷ []) ++ (sender ++ ((b']' ∷ b' ' ∷ []) ++ (msg ++ (10 ∷ []))))

  -- `copied` is whether `copy_from_user` succeeds.
  unfoldable pub chat_write : Telegram → ℕ → List ℕ → Bool → Outcome ℕ × Telegram
  unfolding chat_append user_text bus_enqueue_outgoing
  chat_write state chat_idx bytes copied =
      let chat = get_or state.chats chat_idx no_chat in
      if leb msg_buff_size (length bytes)
      then (error einval, state)
      else (if copied
          then (
            done (length bytes),
            record {
              chats = set state.chats chat_idx (chat_append chat (user_text bytes));
              tg_bus = (bus_enqueue_outgoing kernel state.tg_bus chat_idx bytes (length bytes)).0;
            },
          )
          else (error efault, state))

  -- The index of a chat.
  unfoldable pub chat_index : List ℕ → Option ℕ
  chat_index idx_str = kstrtoint idx_str >>= λ number. elim number [
    | pos n ↦ if leb max_chats n then none else some n
    | negsuc n ↦ none
  ]

  -- The rest of a command, by its first word.
  unfoldable pub incoming_of : ℕ → Option (List ℕ) → Option Command
  incoming_of idx p = do
    rest ← p
    let (sender, after_sender) = strsep rest b'|'
    msg ← after_sender
    some (incoming idx sender msg)

  unfoldable pub bind_of : ℕ → Option (List ℕ) → Option Command
  bind_of idx p = do id ← p; some (bind_chat idx id)

  unfoldable pub command_of : List ℕ → ℕ → Option (List ℕ) → Option Command
  unfolding incoming_of bind_of
  command_of cmd idx p =
      if same_text cmd (b'I' ∷ b'N' ∷ [])
      then incoming_of idx p
      else (if same_text cmd (b'S' ∷ b'E' ∷ b'T' ∷ []) then bind_of idx p else none)

  unfoldable pub parse_command : List ℕ → Option Command
  unfolding chat_index command_of
  parse_command text = do
    let (cmd, after_cmd) = strsep text b'|'
    p ← after_cmd
    let (idx_str, after_idx) = strsep p b'|'
    idx ← chat_index idx_str
    command_of cmd idx after_idx

  unfoldable pub run_command : Telegram → Command → Telegram
  unfolding chat_append sender_text
  run_command state (incoming idx sender msg) = record state {
    chats =
        set state.chats idx (chat_append (get_or state.chats idx no_chat) (sender_text sender msg));
  }
  run_command state (bind_chat idx id) =
      let chat = get_or state.chats idx no_chat in
      record state {
        chats = set state.chats idx record chat { chat_id = strscpy chat_id_buff_size id };
      }

  -- The end of `bus_write`: the bad commands are refused, the others are carried out.
  unfoldable pub perform : Telegram → ℕ → Option Command → Outcome ℕ × Telegram
  unfolding run_command
  perform state count none = (error einval, state)
  perform state count (some command) = (done count, run_command state command)

  unfoldable pub bus_write : Telegram → List ℕ → Bool → Outcome ℕ × Telegram
  unfolding parse_command perform
  bus_write state bytes copied =
      if leb bus_message_size (length bytes)
      then (error einval, state)
      else (if copied
          then perform state (length bytes) (parse_command (c_text bytes))
          else (error efault, state))
