-- ===== src/TelegramFs/Bus/Ring.antt =====
-- The ring of the bus as a sequence of messages, oldest first.
use doomsday_kernel_modules.Base.{
  ℕ, zero, suc, ◌+◌, ◌%◌, ◌≤◌, ◌<◌, ◌≡◌, ◌≢◌, refl, ap, ap₂, List, [], ◌∷◌, ◌++◌, arith, length,
  ◌∙◌, get_or, set, get_or-set_self, get_or-set_ne,
}
use doomsday_kernel_modules.TelegramFs.Bus.{Bus, BusMessage, bus_queue_size, no_message}

-- The invariant of `struct tg_bus_dev`.
pub record IsBus (bus : Bus) : Type 0 where
  pub slots : length bus.queue ≡ bus_queue_size
  pub head_in : bus.head < bus_queue_size
  pub count_in : bus.count ≤ bus_queue_size
  pub tail_eq : bus.tail ≡ (bus.head + bus.count) % bus_queue_size

-- The `n` messages from number `h` on; numbers go round at the end of the queue.
abbrev pub messages : List BusMessage → ℕ → ℕ → List BusMessage
messages queue h zero = []
messages queue h (suc n) = get_or queue (h % bus_queue_size) no_message ∷ messages queue (suc h) n

abbrev pub pending : Bus → List BusMessage
pending bus = messages bus.queue bus.head bus.count

pub length-messages : (queue : List BusMessage) (h n : ℕ) → length (messages queue h n) ≡ n
length-messages queue h zero = refl
length-messages queue h (suc n) = ap suc (length-messages queue (suc h) n)

-- Numbers that are equal modulo the size start the same sequence.
pub messages_mod :
    (queue : List BusMessage) (n h k : ℕ)
    → h % bus_queue_size ≡ k % bus_queue_size
    → messages queue h n ≡ messages queue k n
messages_mod queue zero h k e = refl
messages_mod queue (suc n) h k e =
    ap₂ ◌∷◌ (ap (λ (i : ℕ). get_or queue i no_message) e)
      (messages_mod queue n (suc h) (suc k) (omega arith))

-- A slot outside the sequence may change.
messages-set_outside :
    (queue : List BusMessage) (m : BusMessage) (n h t : ℕ)
    → t < bus_queue_size
    → ((j : ℕ) → j < n → (h + j) % bus_queue_size ≢ t)
    → messages (set queue t m) h n ≡ messages queue h n
messages-set_outside queue m zero h t lt out = refl
messages-set_outside queue m (suc n) h t lt out =
    ap₂ ◌∷◌ (get_or-set_ne queue m no_message (λ e. out 0 (omega arith) (omega arith))) (
      messages-set_outside queue m n (suc h) t lt
        (λ j less e. out (suc j) (omega arith) (omega arith)))

messages_last :
    (queue : List BusMessage) (n h : ℕ)
    → messages queue h (suc n)
      ≡ messages queue h n ++ (get_or queue ((h + n) % bus_queue_size) no_message ∷ [])
messages_last queue zero h =
    ap (λ (i : ℕ). get_or queue (i % bus_queue_size) no_message ∷ []) (omega arith)
messages_last queue (suc n) h =
    ap (λ rest. get_or queue (h % bus_queue_size) no_message ∷ rest)
      (messages_last queue n (suc h)
        ∙ ap
            (λ (i : ℕ).
              messages queue (suc h) n ++ (get_or queue (i % bus_queue_size) no_message ∷ []))
            (omega arith))

-- Writing the slot behind a sequence that does not fill the queue adds the message at its end.
pub messages-set_tail :
    (queue : List BusMessage) (m : BusMessage) (n h : ℕ)
    → length queue ≡ bus_queue_size
    → n < bus_queue_size
    → messages (set queue ((h + n) % bus_queue_size) m) h (suc n) ≡ messages queue h n ++ (m ∷ [])
messages-set_tail queue m n h size room =
    messages_last (set queue ((h + n) % bus_queue_size) m) n h
    ∙ ap₂ (λ front last. front ++ (last ∷ []))
        (messages-set_outside queue m n h ((h + n) % bus_queue_size) (omega arith)
          (λ j less e. omega arith))
        (get_or-set_self queue ((h + n) % bus_queue_size) m no_message (omega arith))
