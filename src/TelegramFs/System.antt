-- ===== src/TelegramFs/System.antt =====
-- The calls of the module one after the other, from the state in which `telegram_init` leaves it.
pub mod Delivery
use doomsday_kernel_modules.Base.{
  ℕ, zero, suc, ◌<◌, ◌≡◌, refl, ◌∙◌, Bool, true, Bool-cases, inl, inr, Option, none, some, List, [],
  ◌∷◌, length, length-set, length-replicate, get_or, set, get_or-set_self, get_or-set_ne,
  ℕ_discrete, leb, arith, replicate, c_text,
}
use doomsday_kernel_modules.TelegramFs.Kernel.{Kernel}
use doomsday_kernel_modules.TelegramFs.Bus.{bus_message_size, bus_read}
use doomsday_kernel_modules.TelegramFs.Bus.Ring.{IsBus}
use doomsday_kernel_modules.TelegramFs.Bus.Order.{bus_enqueue_outgoing-pending, bus_read-pending}
use doomsday_kernel_modules.TelegramFs.Chat.{
  Chat, Telegram, no_chat, max_chats, msg_buff_size, chat_append, user_text, sender_text,
  chat_write, Command, incoming, bind_chat, parse_command, run_command, perform, bus_write,
}
use doomsday_kernel_modules.TelegramFs.Chat.Text.{IsChat, chat_append-content}
use doomsday_kernel_modules.TelegramFs.Module.{loaded_state}

-- Reads that do not change the state (of chats, polls) are left out.
pub data SystemCall : Type 0 where
  chat_writes : ℕ → List ℕ → Bool → SystemCall
  bus_writes : List ℕ → Bool → SystemCall
  bus_reads : ℕ → Bool → SystemCall

pub record IsTelegram (state : Telegram) : Type 0 where
  pub chat_count : length state.chats ≡ max_chats
  pub chats_ok : (i : ℕ) → i < max_chats → IsChat (get_or state.chats i no_chat)
  pub bus_ok : IsBus state.tg_bus

set_chat-IsTelegram :
    (state : Telegram) (idx : ℕ) (chat : Chat)
    → IsTelegram state
    → (idx < max_chats → IsChat chat)
    → IsTelegram (record state { chats = set state.chats idx chat })
set_chat-IsTelegram state idx chat ok new = record {
  chat_count = length-set state.chats idx chat ∙ ok.chat_count;
  chats_ok = λ i inside. elim (ℕ_discrete i idx) [
    | yes e ↦
        rw (e, get_or-set_self state.chats idx chat no_chat (omega (arith, ok.chat_count)))
          (new (omega arith))
    | no ne ↦ rw (get_or-set_ne state.chats chat no_chat ne) (ok.chats_ok i inside)
  ];
  bus_ok = ok.bus_ok;
}

get_or-replicate : (n i : ℕ) (chat : Chat) → i < n → get_or (replicate n chat) i no_chat ≡ chat
get_or-replicate zero i chat h = elim h [ ]
get_or-replicate (suc n) zero chat h = refl
get_or-replicate (suc n) (suc i) chat h = get_or-replicate n i chat (omega arith)

pub loaded_state-IsTelegram : IsTelegram loaded_state
unfolding loaded_state
loaded_state-IsTelegram = record {
  chat_count = refl;
  chats_ok = λ i inside.
      rw (get_or-replicate max_chats i _ inside)
        record { bytes = length-replicate {A = ℕ} msg_buff_size 0; fits = omega arith };
  bus_ok = record { slots = refl; head_in = omega arith; count_in = omega arith; tail_eq = refl };
}

module _ (kernel : Kernel) where
  abbrev pub step : Telegram → SystemCall → Telegram
  step state (chat_writes idx bytes copied) = (chat_write kernel state idx bytes copied).1
  step state (bus_writes bytes copied) = (bus_write kernel state bytes copied).1
  step state (bus_reads count copied) = record state {
    tg_bus = (bus_read state.tg_bus true count copied []).1;
  }

  abbrev pub after_calls : Telegram → List SystemCall → Telegram
  after_calls state [] = state
  after_calls state (call ∷ calls) = after_calls (step state call) calls

  append-IsTelegram :
      (state : Telegram) (idx : ℕ) (text : List ℕ)
      → IsTelegram state
      → IsTelegram (record state {
        chats = set state.chats idx (chat_append kernel (get_or state.chats idx no_chat) text);
      })
  append-IsTelegram state idx text ok =
      set_chat-IsTelegram state idx _ ok
        (λ inside. (chat_append-content kernel _ text (ok.chats_ok idx inside)).0)

  chat_write-IsTelegram :
      (state : Telegram) (idx : ℕ) (bytes : List ℕ) (copied : Bool)
      → IsTelegram state
      → IsTelegram (chat_write kernel state idx bytes copied).1
  unfolding chat_write
  chat_write-IsTelegram state idx bytes copied ok =
      elim (Bool-cases (leb msg_buff_size (length bytes))) [
        | inl long ↦ rw long ok
        | inr short ↦ elim (Bool-cases copied) [
          | inl fine ↦
              let appended = append-IsTelegram state idx (user_text kernel bytes) ok in
              rw (short, fine)
                record {
                  chat_count = appended.chat_count;
                  chats_ok = appended.chats_ok;
                  bus_ok =
                      (bus_enqueue_outgoing-pending kernel state.tg_bus idx bytes (length bytes)
                        ok.bus_ok).0;
                }
          | inr bad ↦ rw (short, bad) ok
        ]
      ]

  run_command-IsTelegram :
      (state : Telegram) (command : Command)
      → IsTelegram state
      → IsTelegram (run_command kernel state command)
  unfolding run_command
  run_command-IsTelegram state (incoming idx sender msg) ok =
      append-IsTelegram state idx (sender_text kernel sender msg) ok
  run_command-IsTelegram state (bind_chat idx id) ok =
      set_chat-IsTelegram state idx _ ok (λ inside.
        let old = ok.chats_ok idx inside in record { bytes = old.bytes; fits = old.fits })

  perform-IsTelegram :
      (state : Telegram) (count : ℕ) (command : Option Command)
      → IsTelegram state
      → IsTelegram (perform kernel state count command).1
  unfolding perform
  perform-IsTelegram state count none ok = ok
  perform-IsTelegram state count (some command) ok = run_command-IsTelegram state command ok

  bus_write-IsTelegram :
      (state : Telegram) (bytes : List ℕ) (copied : Bool)
      → IsTelegram state
      → IsTelegram (bus_write kernel state bytes copied).1
  unfolding bus_write
  bus_write-IsTelegram state bytes copied ok =
      elim (Bool-cases (leb bus_message_size (length bytes))) [
        | inl long ↦ rw long ok
        | inr short ↦ elim (Bool-cases copied) [
          | inl fine ↦
              rw (short, fine)
                (perform-IsTelegram state (length bytes) (parse_command kernel (c_text bytes)) ok)
          | inr bad ↦ rw (short, bad) ok
        ]
      ]

  pub step-IsTelegram :
      (state : Telegram) (call : SystemCall) → IsTelegram state → IsTelegram (step state call)
  step-IsTelegram state (chat_writes idx bytes copied) ok =
      chat_write-IsTelegram state idx bytes copied ok
  step-IsTelegram state (bus_writes bytes copied) ok = bus_write-IsTelegram state bytes copied ok
  step-IsTelegram state (bus_reads count copied) ok = record {
    chat_count = ok.chat_count;
    chats_ok = ok.chats_ok;
    bus_ok = (bus_read-pending state.tg_bus count copied ok.bus_ok).0;
  }

  after_calls_keep :
      (calls : List SystemCall) (state : Telegram)
      → IsTelegram state
      → IsTelegram (after_calls state calls)
  after_calls_keep [] state ok = ok
  after_calls_keep (call ∷ calls) state ok =
      after_calls_keep calls (step state call) (step-IsTelegram state call ok)

  -- Whatever writes to chats, writes to the bus and reads of the bus follow the loading of the module, there
  -- are ten chats whose texts fit their buffers with the closing zero, and the ring of the bus is in order.
  pub after_calls-IsTelegram :
      (calls : List SystemCall) → IsTelegram (after_calls loaded_state calls)
  after_calls-IsTelegram calls = after_calls_keep calls loaded_state loaded_state-IsTelegram
