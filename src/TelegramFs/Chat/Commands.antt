-- ===== src/TelegramFs/Chat/Commands.antt =====
-- The commands that a write to the bus carries, and what they do to the chats.
use doomsday_kernel_modules.Base.{
  Lacks, c_text, c_text_plain, ℕ, ◌+◌, ◌-◌, ◌<◌, ◌≡◌, ◌≢◌, refl, ap, ◌∙◌, Bool, true, Bool-cases,
  inl, inr, Option, none, some, List, [], ◌∷◌, ◌++◌, arith, length, leb, leb_of_lt, take, get_or,
  get_or-set_self, get_or-set_ne,
}
use doomsday_kernel_modules.TelegramFs.Kernel.{Kernel}
use doomsday_kernel_modules.TelegramFs.Bus.{done, error, Errno, bus_message_size}
use doomsday_kernel_modules.TelegramFs.Chat.{
  no_chat, Telegram, msg_buff_size, max_chats, chat_append, Command, incoming, bind_chat,
  chat_index, command_of, incoming_of, bind_of, same_text, sender_text, parse_command, run_command,
  bus_write, perform,
}
use doomsday_kernel_modules.TelegramFs.Chat.Text.{IsChat, content, chat_append-content}

-- The text that a client writes for a command on a chat with a number of one digit.
abbrev pub print_command : Command → List ℕ
print_command (incoming idx sender msg) =
    (b'I' ∷ b'N' ∷ []) ++ (b'|' ∷ (((48 + idx) ∷ []) ++ (b'|' ∷ (sender ++ (b'|' ∷ msg)))))
print_command (bind_chat idx id) =
    (b'S' ∷ b'E' ∷ b'T' ∷ []) ++ (b'|' ∷ (((48 + idx) ∷ []) ++ (b'|' ∷ id)))

-- A command on one of the chats whose sender has no separator.
abbrev pub IsPlain : Command → Type 0
IsPlain (incoming idx sender msg) = (idx < max_chats) × Lacks b'|' sender
IsPlain (bind_chat idx id) = idx < max_chats

module _ (kernel : Kernel) where
  open kernel use {strsep_found, kstrtoint_digit}

  digit_plain : (n : ℕ) → n < max_chats → Lacks b'|' ((48 + n) ∷ [])
  digit_plain n h = (omega arith, tt)

  chat_index_digit : (n : ℕ) → n < max_chats → chat_index kernel ((48 + n) ∷ []) ≡ some n
  unfolding chat_index
  chat_index_digit n h = rw (kstrtoint_digit n h, leb_of_lt h)

  -- Reading what is printed for a command on one of the chats, whose sender has no separator, gives
  -- the command.
  pub parse_command_print :
      (command : Command)
      → IsPlain command
      → parse_command kernel (print_command command) ≡ some command
  unfolding parse_command command_of incoming_of bind_of same_text
  parse_command_print (incoming idx sender msg) (inside, plain) = rw (
    strsep_found b'|' (b'I' ∷ b'N' ∷ []) (((48 + idx) ∷ []) ++ (b'|' ∷ (sender ++ (b'|' ∷ msg))))
        (omega arith, (omega arith, tt)),
    strsep_found b'|' ((48 + idx) ∷ []) (sender ++ (b'|' ∷ msg)) (digit_plain idx inside),
    chat_index_digit idx inside,
    strsep_found b'|' sender msg plain,
  )
  parse_command_print (bind_chat idx id) inside = rw (
    strsep_found b'|' (b'S' ∷ b'E' ∷ b'T' ∷ []) (((48 + idx) ∷ []) ++ (b'|' ∷ id))
        (omega arith, (omega arith, (omega arith, tt))),
    strsep_found b'|' ((48 + idx) ∷ []) id (digit_plain idx inside),
    chat_index_digit idx inside,
  )

  -- A plain command without a zero byte, of fewer than 128 bytes, that can be copied is carried
  -- out, and all of its bytes count as written.
  pub bus_write_print :
      (state : Telegram) (command : Command)
      → IsPlain command
      → Lacks 0 (print_command command)
      → length (print_command command) < bus_message_size
      → bus_write kernel state (print_command command) true
        ≡ (done (length (print_command command)), run_command kernel state command)
  unfolding bus_write perform
  bus_write_print state command plain text short = rw (
    leb_of_lt short,
    c_text_plain (print_command command) text,
    parse_command_print command plain,
  )

  perform_error :
      (state : Telegram) (count : ℕ) (command : Option Command) (e : Errno)
      → (perform kernel state count command).0 ≡ error e
      → (perform kernel state count command).1 ≡ state
  unfolding perform
  perform_error state count none e h = refl
  perform_error state count (some command) e h = absurd (cc h)

  -- A write to the bus that ends with an error changes nothing.
  pub bus_write_error :
      (state : Telegram) (bytes : List ℕ) (copied : Bool) (e : Errno)
      → (bus_write kernel state bytes copied).0 ≡ error e
      → (bus_write kernel state bytes copied).1 ≡ state
  unfolding bus_write
  bus_write_error state bytes copied e = elim (Bool-cases (leb bus_message_size (length bytes))) [
    | inl long ↦ rw long (λ h. refl)
    | inr short ↦ elim (Bool-cases copied) [
      | inl fine ↦
          rw (short, fine)
            (perform_error state (length bytes) (parse_command kernel (c_text bytes)) e)
      | inr bad ↦ rw (short, bad) (λ h. refl)
    ]
  ]

  -- For a chat that exists and is in order, an incoming message goes to the end of its text, as
  -- far as it has room, and every other chat stays.
  pub run_command_incoming :
      (state : Telegram) (idx j : ℕ) (sender msg : List ℕ)
      → idx < length state.chats
      → j ≢ idx
      → IsChat (get_or state.chats idx no_chat)
      → (content (get_or (run_command kernel state (incoming idx sender msg)).chats idx no_chat)
          ≡ content (get_or state.chats idx no_chat)
            ++ take
                (msg_buff_size - (get_or state.chats idx no_chat).buf_len - 1)
                (sender_text kernel sender msg))
        × (get_or (run_command kernel state (incoming idx sender msg)).chats j no_chat
            ≡ get_or state.chats j no_chat)
  unfolding run_command
  run_command_incoming state idx j sender msg inside ne ok =
      let chat = get_or state.chats idx no_chat in
      let text = sender_text kernel sender msg in
      (
        ap content (get_or-set_self state.chats idx (chat_append kernel chat text) no_chat inside)
            ∙ (chat_append-content kernel chat text ok).1,
        get_or-set_ne state.chats (chat_append kernel chat text) no_chat ne,
      )
