-- ===== src/TelegramFs/Bus/Order.antt =====
-- The bus of telegram-fs/kmodule/bus.c against a first-in first-out queue of at most 32 messages.
use doomsday_kernel_modules.Base.{
  ℕ, zero, suc, ◌+◌, ◌-◌, ◌%◌, ◌<◌, ◌≡◌, refl, ap₂, ◌∙◌, Bool, true, false, List, [], ◌∷◌, ◌++◌,
  arith, length, get_or, ◌⊎◌, ltb, leb, ◌==◌, if◌then◌else◌, set, length-set, take, not, Bool-cases,
  inl, inr,
}
use doomsday_kernel_modules.TelegramFs.Kernel.{Kernel}
use doomsday_kernel_modules.TelegramFs.Bus.{
  Bus, BusMessage, bus_queue_size, no_message, Outcome, done, error, eagain, emsgsize, efault,
  outgoing, bus_enqueue_outgoing, bus_take, bus_read,
}
use doomsday_kernel_modules.TelegramFs.Bus.Ring.{
  IsBus, messages, pending, length-messages, messages_mod, messages-set_tail,
}

-- A queue that drops what does not fit.
abbrev pub offer : List BusMessage → BusMessage → List BusMessage
offer waiters m = if leb bus_queue_size (length waiters) then waiters else (waiters ++ (m ∷ []))

-- A read with room for `count` bytes that does not wait.
abbrev pub retrieve : List BusMessage → ℕ → Bool → Outcome (List ℕ) × List BusMessage
retrieve [] count copied = (error eagain, [])
retrieve (m ∷ waiters) count copied =
    if ltb count m.len
    then (error emsgsize, m ∷ waiters)
    else (if copied then (done (take m.len m.payload), waiters) else (error efault, m ∷ waiters))

lt_of_leb : {a b : ℕ} → leb a b ≡ false → b < a
lt_of_leb h = ground arith

add_one : (a : ℕ) → a + 1 ≡ suc a
add_one a = omega arith

suc_sub_one : (a : ℕ) → suc a - 1 ≡ a
suc_sub_one a = omega arith

-- The fields of a bus after a message `m` is appended.
appended :
    {bus : Bus} (m : BusMessage)
    → IsBus bus
    → bus.count < bus_queue_size
    → IsBus record bus {
      queue = set bus.queue bus.tail m;
      tail = (bus.tail + 1) % bus_queue_size;
      count = bus.count + 1;
    }
appended {bus = bus} m ok room = record {
  slots = length-set bus.queue bus.tail m ∙ ok.slots;
  head_in = ok.head_in;
  count_in = omega arith;
  tail_eq = omega (arith, ok.tail_eq);
}

-- The fields of a bus after its oldest message is taken.
taken :
    {bus : Bus} (n : ℕ)
    → IsBus bus
    → bus.count ≡ suc n
    → IsBus record bus { head = (bus.head + 1) % bus_queue_size; count = bus.count - 1 }
taken {bus = bus} n ok e = record {
  slots = ok.slots;
  head_in = omega arith;
  count_in = omega (arith, ok.count_in);
  tail_eq = omega (arith, ok.tail_eq);
}

module _ (kernel : Kernel) where
  full_drops :
      (bus : Bus) (idx : ℕ) (msg : List ℕ) (n : ℕ)
      → leb bus_queue_size bus.count ≡ true
      → bus_enqueue_outgoing kernel bus idx msg n ≡ (bus, false)
  unfolding bus_enqueue_outgoing
  full_drops bus idx msg n full = rw full

  room_appends :
      (bus : Bus) (idx : ℕ) (msg : List ℕ) (n : ℕ)
      → leb bus_queue_size bus.count ≡ false
      → bus_enqueue_outgoing kernel bus idx msg n ≡ (
        record bus {
          queue = set bus.queue bus.tail (outgoing kernel idx msg n);
          tail = (bus.tail + 1) % bus_queue_size;
          count = bus.count + 1;
        },
        true,
      )
  unfolding bus_enqueue_outgoing
  room_appends bus idx msg n room = rw room

  -- For a bus in order, bus_enqueue_outgoing keeps it in order and appends the formatted message to the
  -- pending ones, or drops it where 32 are pending; it wakes readers exactly when it appends.
  pub bus_enqueue_outgoing-pending :
      (bus : Bus) (idx : ℕ) (msg : List ℕ) (n : ℕ)
      → IsBus bus
      → IsBus ((bus_enqueue_outgoing kernel bus idx msg n).0)
        × (pending ((bus_enqueue_outgoing kernel bus idx msg n).0)
            ≡ offer (pending bus) (outgoing kernel idx msg n))
        × ((bus_enqueue_outgoing kernel bus idx msg n).1
            ≡ not (leb bus_queue_size (length (pending bus))))
  bus_enqueue_outgoing-pending bus idx msg n ok =
      rw (length-messages bus.queue bus.head bus.count)
        (elim (Bool-cases (leb bus_queue_size bus.count)) [
          | inl full ↦ rw (full_drops bus idx msg n full, full) (ok, refl, refl)
          | inr room ↦
              rw (room_appends bus idx msg n room, room)
                (
                  appended (outgoing kernel idx msg n) ok (lt_of_leb room),
                  rw (ok.tail_eq, add_one bus.count)
                      (messages-set_tail bus.queue (outgoing kernel idx msg n) bus.count bus.head
                        ok.slots (lt_of_leb room)),
                  refl,
                )
        ])

pub ℕ_cases : (n : ℕ) → (n ≡ 0) ⊎ ((m : ℕ) × (n ≡ suc m))
ℕ_cases zero = inl refl
ℕ_cases (suc n) = inr (n, refl)

pending_empty : (bus : Bus) → bus.count ≡ 0 → pending bus ≡ []
pending_empty bus e = rw e

pending_first :
    (bus : Bus) (n : ℕ)
    → IsBus bus
    → bus.count ≡ suc n
    → pending bus
      ≡ get_or bus.queue bus.head no_message
        ∷ messages bus.queue ((bus.head + 1) % bus_queue_size) (bus.count - 1)
pending_first bus n ok e =
    rw (e, suc_sub_one n)
      (ap₂ (λ i rest. get_or bus.queue i no_message ∷ rest) (omega (arith, ok.head_in))
        (messages_mod bus.queue n (suc bus.head) ((bus.head + 1) % bus_queue_size) (omega arith)))

read_empty :
    (bus : Bus) (count : ℕ) (copied : Bool)
    → (bus.count == 0) ≡ true
    → bus_read bus true count copied [] ≡ (error eagain, bus)
unfolding bus_read
read_empty bus count copied e = rw e

read_take :
    (bus : Bus) (nonblock : Bool) (count : ℕ) (copied : Bool)
    → (bus.count == 0) ≡ false
    → bus_read bus nonblock count copied [] ≡ bus_take bus count copied
unfolding bus_read
read_take bus nonblock count copied e = rw e

pub bus_take-pending :
    (bus : Bus) (n count : ℕ) (copied : Bool)
    → IsBus bus
    → bus.count ≡ suc n
    → IsBus (bus_take bus count copied).1
      × (((bus_take bus count copied).0, pending (bus_take bus count copied).1)
          ≡ retrieve (pending bus) count copied)
unfolding bus_take
bus_take-pending bus n count copied ok e =
    let queue = pending_first bus n ok e in
    elim (Bool-cases (ltb count (get_or bus.queue bus.head no_message).len)) [
      | inl short ↦ rw short (ok, rw (queue, short))
      | inr room ↦ elim (Bool-cases copied) [
        | inl fine ↦ rw (room, fine) (taken n ok e, rw (queue, room))
        | inr bad ↦ rw (room, bad) (ok, rw (queue, room))
      ]
    ]

-- For a bus in order, a read that finds the lock free and does not wait answers as the queue of pending
-- messages does, and leaves the bus in order with the messages that the queue keeps.
pub bus_read-pending :
    (bus : Bus) (count : ℕ) (copied : Bool)
    → IsBus bus
    → IsBus (bus_read bus true count copied []).1
      × (((bus_read bus true count copied []).0, pending (bus_read bus true count copied []).1)
          ≡ retrieve (pending bus) count copied)
bus_read-pending bus count copied ok = elim (ℕ_cases bus.count) [
  | inl e ↦ rw (read_empty bus count copied (ground (arith, e))) (ok, rw (pending_empty bus e))
  | inr (n, e) ↦
      rw (read_take bus true count copied (ground (arith, e)))
        (bus_take-pending bus n count copied ok e)
]
