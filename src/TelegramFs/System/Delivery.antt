-- ===== src/TelegramFs/System/Delivery.antt =====
-- What the daemon reads from the bus, against what the users write to the chats.
use doomsday_kernel_modules.Base.{
  ℕ, ◌≡◌, refl, sym, ap, ◌∙◌, Bool, true, false, arith, Bool-cases, inl, inr, List, [], ◌∷◌, ◌++◌,
  length, take, leb, ltb, if◌then◌else◌, append_nil, append_assoc, c_text, map, Option, none, some,
}
use doomsday_kernel_modules.TelegramFs.Kernel.{Kernel}
use doomsday_kernel_modules.TelegramFs.Bus.{
  BusMessage, bus_queue_size, bus_message_size, Outcome, done, error, waiting, outgoing,
  outgoing_text, bus_read,
}
use mathlib.Core.Path.{ap₂}
use doomsday_kernel_modules.TelegramFs.Bus.Text.{take_enough}
use doomsday_kernel_modules.TelegramFs.Bus.Ring.{pending}
use doomsday_kernel_modules.TelegramFs.Bus.Order.{
  offer, retrieve, bus_enqueue_outgoing-pending, bus_read-pending,
}
use doomsday_kernel_modules.TelegramFs.Chat.{
  Telegram, msg_buff_size, chat_write, bus_write, perform, run_command, Command, incoming,
  bind_chat, parse_command,
}
use doomsday_kernel_modules.TelegramFs.Module.{loaded_state}
use doomsday_kernel_modules.TelegramFs.System.{
  SystemCall, chat_writes, bus_writes, bus_reads, IsTelegram, step, after_calls, step-IsTelegram,
  loaded_state-IsTelegram,
}

-- The bytes that a read gives for a message.
abbrev pub message_text : BusMessage → List ℕ
message_text m = take m.len m.payload

abbrev pub texts : List BusMessage → List (List ℕ)
texts messages = map message_text messages

texts-append : (xs ys : List BusMessage) → texts (xs ++ ys) ≡ texts xs ++ texts ys
texts-append [] ys = refl
texts-append (x ∷ xs) ys = ap (λ r. message_text x ∷ r) (texts-append xs ys)

-- What a call gives to the daemon.
abbrev pub of_read : Outcome (List ℕ) → List (List ℕ)
of_read (done text) = text ∷ []
of_read (error e) = []
of_read waiting = []

retrieve_keeps :
    (queue : List BusMessage) (count : ℕ) (copied : Bool)
    → texts queue ≡ of_read (retrieve queue count copied).0 ++ texts (retrieve queue count copied).1
retrieve_keeps [] count copied = refl
retrieve_keeps (m ∷ queue) count copied = elim (Bool-cases (ltb count m.len)) [
  | inl short ↦ rw short refl
  | inr room ↦ elim (Bool-cases copied) [
    | inl fine ↦ rw (room, fine) refl
    | inr bad ↦ rw (room, bad) refl
  ]
]

-- What a write that returns a count puts on a bus with room.
abbrev pub of_write : {A : Type 0} → Outcome ℕ → (full : Bool) → A → List A
of_write (done n) full m = if full then [] else (m ∷ [])
of_write (error e) full m = []
of_write waiting full m = []

of_write-texts :
    (r : Outcome ℕ) (full : Bool) (m : BusMessage) {text : List ℕ}
    → message_text m ≡ text
    → texts (of_write r full m) ≡ of_write r full text
of_write-texts (done n) true m e = refl
of_write-texts (done n) false m e = ap (λ t. t ∷ []) e
of_write-texts (error n) full m e = refl
of_write-texts waiting full m e = refl

offer_keeps :
    (queue : List BusMessage) (m : BusMessage)
    → queue ++ of_write (done 0) (leb bus_queue_size (length queue)) m ≡ offer queue m
offer_keeps queue m = elim (Bool-cases (leb bus_queue_size (length queue))) [
  | inl full ↦ rw full (append_nil queue)
  | inr room ↦ rw room refl
]

module _ (kernel : Kernel) where
  abbrev pub writes_to_bus : {A : Type 0} → (ℕ → List ℕ → A) → Telegram → SystemCall → List A
  writes_to_bus f state (chat_writes idx bytes copied) =
      of_write (chat_write kernel state idx bytes copied).0
        (leb bus_queue_size (length (pending state.tg_bus))) (f idx bytes)
  writes_to_bus f state (bus_writes bytes copied) = []
  writes_to_bus f state (bus_reads count copied) = []

  abbrev message : ℕ → List ℕ → BusMessage
  message idx bytes = outgoing kernel idx bytes (length bytes)

  abbrev queued : Telegram → SystemCall → List BusMessage
  queued = writes_to_bus message

  -- The first 127 bytes of the line for a text to a chat: `OUT|`, the number of the chat, `|`, the text up to
  -- its first zero byte, and a newline.
  abbrev pub line : ℕ → List ℕ → List ℕ
  line idx bytes = take 127 (
      (b'O' ∷ b'U' ∷ b'T' ∷ b'|' ∷ [])
      ++ (kernel.show_int idx ++ ((b'|' ∷ []) ++ (c_text bytes ++ (10 ∷ [])))))

  abbrev pub received : Telegram → SystemCall → List (List ℕ)
  received state (chat_writes idx bytes copied) = []
  received state (bus_writes bytes copied) = []
  received state (bus_reads count copied) = of_read (bus_read state.tg_bus true count copied []).0

  abbrev all_queued : Telegram → List SystemCall → List BusMessage
  all_queued state [] = []
  all_queued state (call ∷ calls) = queued state call ++ all_queued (step kernel state call) calls

  -- The lines of the writes to chats that return a count while fewer than 32 messages wait.
  abbrev pub all_sent : Telegram → List SystemCall → List (List ℕ)
  all_sent state [] = []
  all_sent state (call ∷ calls) =
      writes_to_bus line state call ++ all_sent (step kernel state call) calls

  abbrev pub all_received : Telegram → List SystemCall → List (List ℕ)
  all_received state [] = []
  all_received state (call ∷ calls) =
      received state call ++ all_received (step kernel state call) calls

  write_conserves :
      (state : Telegram) (idx : ℕ) (bytes : List ℕ) (copied : Bool)
      → IsTelegram state
      → pending state.tg_bus ++ queued state (chat_writes idx bytes copied)
        ≡ pending (chat_write kernel state idx bytes copied).1.tg_bus
  unfolding chat_write
  write_conserves state idx bytes copied ok = elim (Bool-cases (leb msg_buff_size (length bytes))) [
    | inl long ↦ rw long (append_nil (pending state.tg_bus))
    | inr short ↦ elim (Bool-cases copied) [
      | inl fine ↦
          let (in_order, appended, woken) =
            bus_enqueue_outgoing-pending kernel state.tg_bus idx bytes (length bytes) ok.bus_ok in
          rw (short, fine)
            (offer_keeps (pending state.tg_bus) (outgoing kernel idx bytes (length bytes))
              ∙ sym appended)
      | inr bad ↦ rw (short, bad) (append_nil (pending state.tg_bus))
    ]
  ]

  command_conserves :
      (state : Telegram) (count : ℕ) (command : Option Command)
      → (perform kernel state count command).1.tg_bus ≡ state.tg_bus
  unfolding perform run_command
  command_conserves state count none = refl
  command_conserves state count (some (incoming idx sender msg)) = refl
  command_conserves state count (some (bind_chat idx id)) = refl

  bus_write_conserves :
      (state : Telegram) (bytes : List ℕ) (copied : Bool)
      → (bus_write kernel state bytes copied).1.tg_bus ≡ state.tg_bus
  unfolding bus_write
  bus_write_conserves state bytes copied = elim (Bool-cases (leb bus_message_size (length bytes))) [
    | inl long ↦ rw long refl
    | inr short ↦ elim (Bool-cases copied) [
      | inl fine ↦
          rw (short, fine)
            (command_conserves state (length bytes) (parse_command kernel (c_text bytes)))
      | inr bad ↦ rw (short, bad) refl
    ]
  ]

  step_conserves :
      (state : Telegram) (call : SystemCall)
      → IsTelegram state
      → texts (pending state.tg_bus ++ queued state call)
        ≡ received state call ++ texts (pending (step kernel state call).tg_bus)
  step_conserves state (chat_writes idx bytes copied) ok =
      ap texts (write_conserves state idx bytes copied ok)
  step_conserves state (bus_writes bytes copied) ok =
      ap texts (append_nil (pending state.tg_bus))
      ∙ ap (λ bus. texts (pending bus)) (sym (bus_write_conserves state bytes copied))
  step_conserves state (bus_reads count copied) ok =
      let (in_order, same) = bus_read-pending state.tg_bus count copied ok.bus_ok in
      ap texts (append_nil (pending state.tg_bus))
      ∙ (retrieve_keeps (pending state.tg_bus) count copied
          ∙ ap (λ r. of_read r.0 ++ texts r.1) (sym same))

  conserved :
      (calls : List SystemCall) (state : Telegram)
      → IsTelegram state
      → texts (pending state.tg_bus) ++ texts (all_queued state calls)
        ≡ all_received state calls ++ texts (pending (after_calls kernel state calls).tg_bus)
  conserved [] state ok = append_nil (texts (pending state.tg_bus))
  conserved (call ∷ calls) state ok =
      let next = step kernel state call in
      let one = step_conserves state call ok in
      let others = conserved calls next (step-IsTelegram kernel state call ok) in
      ap (λ r. texts (pending state.tg_bus) ++ r)
        (texts-append (queued state call) (all_queued next calls))
      ∙ (sym (
            append_assoc (texts (pending state.tg_bus)) (texts (queued state call))
              (texts (all_queued next calls)))
          ∙ (ap (λ r. r ++ texts (all_queued next calls))
                (sym (texts-append (pending state.tg_bus) (queued state call)) ∙ one)
              ∙ (append_assoc (received state call) (texts (pending next.tg_bus))
                    (texts (all_queued next calls))
                  ∙ (ap (λ r. received state call ++ r) others
                      ∙ sym (
                          append_assoc (received state call) (all_received next calls)
                            (texts (pending (after_calls kernel next calls).tg_bus)))))))

  message-line : (idx : ℕ) (bytes : List ℕ) → message_text (message idx bytes) ≡ line idx bytes
  unfolding outgoing outgoing_text
  message-line idx bytes =
      let whole = take_enough (length bytes) bytes (omega arith) in
      let text = kernel.scnprintf 128 (outgoing_text kernel idx bytes (length bytes)) in
      take_enough (length text) text (omega arith)
      ∙ kernel.scnprintf_cuts 128 (outgoing_text kernel idx bytes (length bytes))
      ∙ rw whole refl

  queued_lines :
      (state : Telegram) (call : SystemCall)
      → texts (queued state call) ≡ writes_to_bus line state call
  queued_lines state (chat_writes idx bytes copied) =
      of_write-texts (chat_write kernel state idx bytes copied).0
        (leb bus_queue_size (length (pending state.tg_bus))) (message idx bytes)
        (message-line idx bytes)
  queued_lines state (bus_writes bytes copied) = refl
  queued_lines state (bus_reads count copied) = refl

  all_queued_lines :
      (calls : List SystemCall) (state : Telegram)
      → texts (all_queued state calls) ≡ all_sent state calls
  all_queued_lines [] state = refl
  all_queued_lines (call ∷ calls) state =
      texts-append (queued state call) (all_queued (step kernel state call) calls)
      ∙ ap₂ (λ (x y : List (List ℕ)). x ++ y) (queued_lines state call)
          (all_queued_lines calls (step kernel state call))

  -- Whatever writes to chats, writes to the bus and reads of the bus follow the loading of the module: the
  -- texts that the reads have given, and then those that wait, are the lines (OUT, the chat and the text
  -- up to its first zero byte, with a newline) of the writes to chats that returned a count while fewer than 32
  -- messages waited, each line once, in the order of the writes, and cut to its first 127 bytes.
  pub after_calls-all_sent :
      (calls : List SystemCall)
      → all_received loaded_state calls
          ++ texts (pending (after_calls kernel loaded_state calls).tg_bus)
        ≡ all_sent loaded_state calls
  unfolding loaded_state
  after_calls-all_sent calls =
      sym (conserved calls loaded_state loaded_state-IsTelegram)
      ∙ all_queued_lines calls loaded_state
