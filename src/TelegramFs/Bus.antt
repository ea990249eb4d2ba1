-- ===== src/TelegramFs/Bus.antt =====
-- The queue of telegram-fs/kmodule/bus.c: `bus_enqueue_outgoing`, `bus_read` and `bus_poll` over the
-- ring of `struct tg_bus_dev`. A message is its payload without the closing zero. The mutex makes
-- each function one step; `bus_read` lets it go only while it waits.
pub mod Ring
pub mod Order
pub mod Text
pub mod Waits
use doomsday_kernel_modules.Base.{
  c_text, ℕ, ◌+◌, ◌-◌, ◌%◌, ◌≡◌, Bool, true, false, Option, none, some, List, [], ◌∷◌, ◌++◌, ltb,
  leb, ◌==◌, if◌then◌else◌, length, get_elem?, get_or, set, take,
}
use doomsday_kernel_modules.TelegramFs.Kernel.{Kernel}

abbrev pub bus_queue_size : ℕ
bus_queue_size = 32

abbrev pub bus_message_size : ℕ
bus_message_size = 128

pub record BusMessage : Type 0 where
  pub payload : List ℕ
  pub len : ℕ

pub record Bus : Type 0 where
  pub queue : List BusMessage
  pub count : ℕ
  pub head : ℕ
  pub tail : ℕ

-- Outcomes of the system calls: a value, or one of the errors that the module returns.
pub data Errno : Type 0 where
  eagain erestartsys emsgsize efault einval : Errno

pub data Outcome (A : Type 0) : Type 0 where
  done : A → Outcome A
  error : Errno → Outcome A
  -- still in `wait_event_interruptible`
  waiting : Outcome A

-- How a call of `wait_event_interruptible` ends: by a signal, or with the state that other calls
-- have left when the lock is taken again.
pub data Wake (S : Type 0) : Type 0 where
  signal : Wake S
  woken : S → Wake S

module _ (kernel : Kernel) where
  open kernel use {scnprintf, show_int}

  -- The text of `"OUT|%d|%.*s\n"`.
  unfoldable pub outgoing_text : ℕ → List ℕ → ℕ → List ℕ
  outgoing_text chat_idx msg msg_len =
      (b'O' ∷ b'U' ∷ b'T' ∷ b'|' ∷ [])
      ++ (show_int chat_idx ++ ((b'|' ∷ []) ++ (c_text (take msg_len msg) ++ (10 ∷ []))))

  unfoldable pub outgoing : ℕ → List ℕ → ℕ → BusMessage
  unfolding outgoing_text
  outgoing chat_idx msg msg_len =
      let payload = scnprintf bus_message_size (outgoing_text chat_idx msg msg_len) in
      record { payload = payload; len = length payload }

  -- The new bus, and whether readers are woken.
  unfoldable pub bus_enqueue_outgoing : Bus → ℕ → List ℕ → ℕ → Bus × Bool
  unfolding outgoing
  bus_enqueue_outgoing bus chat_idx msg msg_len =
      if leb bus_queue_size bus.count then (bus, false) else (
        record bus {
          queue = set bus.queue bus.tail (outgoing chat_idx msg msg_len);
          tail = (bus.tail + 1) % bus_queue_size;
          count = bus.count + 1;
        },
        true,
      )

-- A zeroed element of the queue.
abbrev pub no_message : BusMessage
no_message = record { payload = []; len = 0 }

-- `bus_read` with the lock held and a message at hand: `copied` is whether `copy_to_user` succeeds.
-- The result is what is copied to the caller, whose length is returned.
unfoldable pub bus_take : Bus → ℕ → Bool → Outcome (List ℕ) × Bus
bus_take bus count copied =
    let bm = get_or bus.queue bus.head no_message in
    if ltb count bm.len
    then (error emsgsize, bus)
    else (if copied
        then (
          done (take bm.len bm.payload),
          record bus { head = (bus.head + 1) % bus_queue_size; count = bus.count - 1 },
        )
        else (error efault, bus))

-- `bus_read` with the ends of its waits in order.
unfoldable pub bus_read : Bus → Bool → ℕ → Bool → List (Wake Bus) → Outcome (List ℕ) × Bus
unfolding bus_take
bus_read bus nonblock count copied [] =
    if bus.count == 0
    then (if nonblock then (error eagain, bus) else (waiting, bus))
    else bus_take bus count copied
bus_read bus nonblock count copied (signal ∷ wakes) =
    if bus.count == 0
    then (if nonblock then (error eagain, bus) else (error erestartsys, bus))
    else bus_take bus count copied
bus_read bus nonblock count copied (woken bus' ∷ wakes) =
    let again = bus_read bus' nonblock count copied wakes in
    if bus.count == 0
    then (if nonblock then (error eagain, bus) else again)
    else bus_take bus count copied

-- Whether `bus_poll` reports the bus as writable and as readable.
unfoldable pub bus_poll : Bus → Bool × Bool
bus_poll bus = (true, ltb 0 bus.count)
