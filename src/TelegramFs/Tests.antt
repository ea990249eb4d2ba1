-- ===== src/TelegramFs/Tests.antt =====
-- The theorems of the bus and of the chats at concrete states.
use doomsday_kernel_modules.Base.{
  c_text, Lacks, ℕ, ◌≡◌, refl, true, false, List, [], ◌∷◌, ◌++◌, arith, take, replicate, get_or,
}
use doomsday_kernel_modules.TelegramFs.Sample.{sample_kernel}
use doomsday_kernel_modules.TelegramFs.Bus.{
  Bus, BusMessage, no_message, done, error, einval, outgoing, bus_enqueue_outgoing, bus_read,
}
use doomsday_kernel_modules.TelegramFs.Bus.Ring.{IsBus, pending}
use doomsday_kernel_modules.TelegramFs.Bus.Order.{
  offer, retrieve, bus_enqueue_outgoing-pending, bus_read-pending,
}
use doomsday_kernel_modules.TelegramFs.Bus.{woken}
use doomsday_kernel_modules.TelegramFs.Bus.Waits.{bus_read_woken}
use doomsday_kernel_modules.TelegramFs.Module.{loaded_state}
use doomsday_kernel_modules.TelegramFs.System.Delivery.{
  texts, all_sent, all_received, after_calls-all_sent,
}
use doomsday_kernel_modules.TelegramFs.System.{
  SystemCall, IsTelegram, chat_writes, bus_writes, bus_reads, after_calls, after_calls-IsTelegram,
}
use doomsday_kernel_modules.TelegramFs.Chat.{
  Chat, Telegram, no_chat, user_text, Command, incoming, chat_write, run_command, bus_write,
}
use doomsday_kernel_modules.TelegramFs.Chat.Text.{IsChat, content}
use doomsday_kernel_modules.TelegramFs.Chat.Stream.{
  Reader, IsReader, Event, appended, read, after, after-IsReader,
}
use doomsday_kernel_modules.TelegramFs.Chat.Commands.{print_command, bus_write_print}
use doomsday_kernel_modules.TelegramFs.Chat.Writes.{chat_write_done}

abbrev hello : List ℕ
hello = b'h' ∷ b'e' ∷ b'l' ∷ b'l' ∷ b'o' ∷ []

abbrev bob : List ℕ
bob = b'b' ∷ b'o' ∷ b'b' ∷ []

abbrev first_message : BusMessage
first_message = record { payload = hello; len = 5 }

-- One message waits in the last slot, so the next one goes to the first.
abbrev one_waits : Bus
one_waits = record {
  queue = replicate 31 no_message ++ (first_message ∷ []);
  count = 1;
  head = 31;
  tail = 0;
}

one_waits-IsBus : IsBus one_waits
one_waits-IsBus = record {
  slots = refl;
  head_in = omega arith;
  count_in = omega arith;
  tail_eq = refl;
}

bus_enqueue_outgoing-pending_example :
    IsBus (bus_enqueue_outgoing sample_kernel one_waits 3 bob 3).0
    × (pending (bus_enqueue_outgoing sample_kernel one_waits 3 bob 3).0
        ≡ offer (pending one_waits) (outgoing sample_kernel 3 bob 3))
    × ((bus_enqueue_outgoing sample_kernel one_waits 3 bob 3).1 ≡ true)
bus_enqueue_outgoing-pending_example =
    bus_enqueue_outgoing-pending sample_kernel one_waits 3 bob 3 one_waits-IsBus

bus_read-pending_example :
    IsBus (bus_read one_waits true 100 true []).1
    × (((bus_read one_waits true 100 true []).0, pending (bus_read one_waits true 100 true []).1)
        ≡ retrieve (pending one_waits) 100 true)
bus_read-pending_example = bus_read-pending one_waits 100 true one_waits-IsBus

-- The message that was read is the one that waits.
bus_read_test : (bus_read one_waits true 100 true []).0 ≡ done hello
unfolding bus_read
bus_read_test = refl

abbrev short_chat : Chat
short_chat = record { buffer = hello ++ replicate 4091 0; buf_len = 5; chat_id = [] }

short_chat-IsChat : IsChat short_chat
short_chat-IsChat = record { bytes = refl; fits = omega arith }

abbrev full_chat : Chat
full_chat = record { buffer = replicate 4095 b'x' ++ (0 ∷ []); buf_len = 4095; chat_id = [] }

full_chat-IsChat : IsChat full_chat
full_chat-IsChat = record { bytes = refl; fits = omega arith }

abbrev state : Telegram
state = record {
  chats = replicate 3 short_chat ++ (full_chat ∷ replicate 6 short_chat);
  tg_bus = one_waits;
}

abbrev opened : Reader
opened = record { chat = short_chat; ppos = 0; seen = [] }

opened-IsReader : IsReader opened
opened-IsReader = record { chat_ok = short_chat-IsChat; inside = omega arith; seen_eq = refl }

abbrev events : List Event
events = read 3 true ∷ (appended bob ∷ (read 100 false ∷ (read 100 true ∷ [])))

after_example : IsReader (after sample_kernel opened events)
after_example = after-IsReader sample_kernel events opened opened-IsReader

abbrev from_bob : Command
from_bob = incoming 2 bob hello

from_bob_text : Lacks 0 (print_command from_bob)
from_bob_text = (
  omega arith,
  (
    omega arith,
    (
      omega arith,
      (
        omega arith,
        (
          omega arith,
          (
            omega arith,
            (
              omega arith,
              (
                omega arith,
                (
                  omega arith,
                  (omega arith, (omega arith, (omega arith, (omega arith, (omega arith, tt))))),
                ),
              ),
            ),
          ),
        ),
      ),
    ),
  ),
)

bus_write_example :
    bus_write sample_kernel state (print_command from_bob) true
    ≡ (done 14, run_command sample_kernel state from_bob)
bus_write_example =
    bus_write_print sample_kernel state from_bob
      (omega arith, (omega arith, (omega arith, (omega arith, tt)))) from_bob_text (omega arith)

bad_command : (bus_write sample_kernel state hello true).0 ≡ error einval
unfolding bus_write c_text
bad_command = refl

chat_write_example :
    ((chat_write sample_kernel state 2 hello true).0 ≡ done 5)
    × (content (get_or (chat_write sample_kernel state 2 hello true).1.chats 2 no_chat)
        ≡ content short_chat ++ take 4090 (user_text sample_kernel hello))
    × (get_or (chat_write sample_kernel state 2 hello true).1.chats 4 no_chat ≡ short_chat)
    × (pending (chat_write sample_kernel state 2 hello true).1.tg_bus
        ≡ offer (pending one_waits) (outgoing sample_kernel 2 hello 5))
chat_write_example =
    chat_write_done sample_kernel state 2 4 hello (omega arith) (omega arith) (omega arith)
      short_chat-IsChat one_waits-IsBus

abbrev empty_bus : Bus
empty_bus = record { queue = replicate 32 no_message; count = 0; head = 31; tail = 31 }

-- Woken twice in vain.
bus_read_woken_example :
    IsBus
      (bus_read empty_bus false 100 true
        (woken empty_bus ∷ woken empty_bus ∷ woken one_waits ∷ [])).1
    × ((
      (bus_read empty_bus false 100 true
          (woken empty_bus ∷ woken empty_bus ∷ woken one_waits ∷ [])).0,
      pending
          (bus_read empty_bus false 100 true
            (woken empty_bus ∷ woken empty_bus ∷ woken one_waits ∷ [])).1,
    )
        ≡ retrieve (pending one_waits) 100 true)
bus_read_woken_example =
    bus_read_woken (empty_bus ∷ empty_bus ∷ []) empty_bus one_waits 100 true [] refl
      (refl, (refl, tt)) (omega arith) one_waits-IsBus

after_calls_example : IsTelegram (
    after_calls sample_kernel loaded_state (
      chat_writes 2 hello true
      ∷ bus_writes (print_command from_bob) true
      ∷ bus_reads 100 true
      ∷ []))
after_calls_example =
    after_calls-IsTelegram sample_kernel (
      chat_writes 2 hello true ∷ bus_writes (print_command from_bob) true ∷ bus_reads 100 true ∷ [])

abbrev two_messages : List SystemCall
two_messages =
    chat_writes 2 hello true ∷ chat_writes 3 hello true ∷ bus_reads 100 true ∷ bus_reads 3 true ∷ []

delivery_example :
    all_received sample_kernel loaded_state two_messages
      ++ texts (pending (after_calls sample_kernel loaded_state two_messages).tg_bus)
    ≡ all_sent sample_kernel loaded_state two_messages
delivery_example = after_calls-all_sent sample_kernel two_messages
