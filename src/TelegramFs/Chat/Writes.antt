-- ===== src/TelegramFs/Chat/Writes.antt =====
-- What a write to a chat does to the chats and to the bus.
use doomsday_kernel_modules.Base.{
  append_nil, ℕ, ◌-◌, ◌<◌, ◌≡◌, ◌≢◌, refl, ap, ◌∙◌, true, List, ◌++◌, length, leb_of_lt, take,
  get_or, set, get_or-set_self, get_or-set_ne,
}
use doomsday_kernel_modules.TelegramFs.Kernel.{Kernel}
use doomsday_kernel_modules.TelegramFs.Bus.{outgoing, bus_enqueue_outgoing, done}
use doomsday_kernel_modules.TelegramFs.Bus.Ring.{IsBus, pending}
use doomsday_kernel_modules.TelegramFs.Bus.Order.{offer, bus_enqueue_outgoing-pending}
use doomsday_kernel_modules.TelegramFs.Chat.{
  no_chat, Telegram, msg_buff_size, chat_append, user_text, chat_write,
}
use doomsday_kernel_modules.TelegramFs.Chat.Text.{IsChat, content, chat_append-content}

module _ (kernel : Kernel) where
  written :
      (state : Telegram) (idx : ℕ) (bytes : List ℕ)
      → length bytes < msg_buff_size
      → chat_write kernel state idx bytes true ≡ (
        done (length bytes),
        record {
          chats =
              set state.chats idx
                (chat_append kernel (get_or state.chats idx no_chat) (user_text kernel bytes));
          tg_bus = (bus_enqueue_outgoing kernel state.tg_bus idx bytes (length bytes)).0;
        },
      )
  unfolding chat_write
  written state idx bytes short = rw (leb_of_lt short)

  -- A write of fewer than 4096 bytes that can be copied, to a chat that exists and is in order,
  -- returns their number; the chat gets the text with the user in front, as far as it has room,
  -- every other chat stays, and the bus, which is in order, gets one message for the daemon or
  -- drops it where it is full.
  pub chat_write_done :
      (state : Telegram) (idx j : ℕ) (bytes : List ℕ)
      → length bytes < msg_buff_size
      → idx < length state.chats
      → j ≢ idx
      → IsChat (get_or state.chats idx no_chat)
      → IsBus state.tg_bus
      → ((chat_write kernel state idx bytes true).0 ≡ done (length bytes))
        × (content (get_or (chat_write kernel state idx bytes true).1.chats idx no_chat)
            ≡ content (get_or state.chats idx no_chat)
              ++ take
                  (msg_buff_size - (get_or state.chats idx no_chat).buf_len - 1)
                  (user_text kernel bytes))
        × (get_or (chat_write kernel state idx bytes true).1.chats j no_chat
            ≡ get_or state.chats j no_chat)
        × (pending (chat_write kernel state idx bytes true).1.tg_bus
            ≡ offer (pending state.tg_bus) (outgoing kernel idx bytes (length bytes)))
  chat_write_done state idx j bytes short inside ne ok bus_ok =
      let chat = get_or state.chats idx no_chat in
      let new = chat_append kernel chat (user_text kernel bytes) in
      rw (written state idx bytes short) (
        refl,
        ap content (get_or-set_self state.chats idx new no_chat inside)
            ∙ (chat_append-content kernel chat (user_text kernel bytes) ok).1,
        get_or-set_ne state.chats new no_chat ne,
        (bus_enqueue_outgoing-pending kernel state.tg_bus idx bytes (length bytes) bus_ok).1,
      )

  -- A write of fewer than 4096 bytes that can be copied, to a chat that exists and is in order and
  -- whose buffer is full, returns the number of its bytes, and the text of the chat stays as it
  -- is.
  pub chat_write_full :
      (state : Telegram) (idx : ℕ) (bytes : List ℕ)
      → length bytes < msg_buff_size
      → idx < length state.chats
      → IsChat (get_or state.chats idx no_chat)
      → (get_or state.chats idx no_chat).buf_len ≡ msg_buff_size - 1
      → ((chat_write kernel state idx bytes true).0 ≡ done (length bytes))
        × (content (get_or (chat_write kernel state idx bytes true).1.chats idx no_chat)
            ≡ content (get_or state.chats idx no_chat))
  chat_write_full state idx bytes short inside ok full =
      let chat = get_or state.chats idx no_chat in
      let text = user_text kernel bytes in
      rw (written state idx bytes short) (
        refl,
        ap content (get_or-set_self state.chats idx (chat_append kernel chat text) no_chat inside)
            ∙ (chat_append-content kernel chat text ok).1
            ∙ ap (λ (n : ℕ). content chat ++ take (msg_buff_size - n - 1) text) full
            ∙ append_nil (content chat),
      )
