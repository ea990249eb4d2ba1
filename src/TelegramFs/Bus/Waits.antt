-- ===== src/TelegramFs/Bus/Waits.antt =====
-- A read of the bus that waits.
use doomsday_kernel_modules.Base.{
  ℕ, ◌≡◌, ◌≢◌, Bool, true, false, List, [], ◌∷◌, ◌++◌, map, ◌==◌, arith, inl, inr,
}
use doomsday_kernel_modules.TelegramFs.Bus.{Bus, Wake, signal, woken, bus_take, bus_read}
use doomsday_kernel_modules.TelegramFs.Bus.Ring.{IsBus, pending}
use doomsday_kernel_modules.TelegramFs.Bus.Order.{retrieve, bus_take-pending, ℕ_cases}

abbrev pub AreEmpty : List Bus → Type 0
AreEmpty [] = Unit
AreEmpty (bus ∷ buses) = (bus.count ≡ 0) × AreEmpty buses

-- With a message at hand there is no wait.
read_ready :
    (bus : Bus) (count : ℕ) (copied : Bool) (wakes : List (Wake Bus))
    → (bus.count == 0) ≡ false
    → bus_read bus false count copied wakes ≡ bus_take bus count copied
unfolding bus_read
read_ready bus count copied [] e = rw e
read_ready bus count copied (signal ∷ wakes) e = rw e
read_ready bus count copied (woken bus' ∷ wakes) e = rw e

waits_on :
    (empties : List Bus) (bus next : Bus) (count : ℕ) (copied : Bool) (rest : List (Wake Bus))
    → bus.count ≡ 0
    → AreEmpty empties
    → next.count ≢ 0
    → bus_read bus false count copied (map woken empties ++ (woken next ∷ rest))
      ≡ bus_take next count copied
unfolding bus_read
waits_on [] bus next count copied rest none empty some_message =
    let here : (bus.count == 0) ≡ true = ground arith in
    rw here (read_ready next count copied rest (ground arith))
waits_on (e ∷ empties) bus next count copied rest none (empty, others) some_message =
    let here : (bus.count == 0) ≡ true = ground arith in
    rw here (waits_on empties e next count copied rest empty others some_message)

-- However often a blocking read is woken in vain, on empty buses, it goes on waiting, and when it is woken with
-- a message on a bus in order, it answers as the queue of pending messages does, and leaves the bus in order.
pub bus_read_woken :
    (empties : List Bus) (bus next : Bus) (count : ℕ) (copied : Bool) (rest : List (Wake Bus))
    → bus.count ≡ 0
    → AreEmpty empties
    → next.count ≢ 0
    → IsBus next
    → (let answer = bus_read bus false count copied (map woken empties ++ (woken next ∷ rest)) in
        IsBus answer.1 × ((answer.0, pending answer.1) ≡ retrieve (pending next) count copied))
bus_read_woken empties bus next count copied rest none empty some_message ok =
    rw (waits_on empties bus next count copied rest none empty some_message)
      (elim (ℕ_cases next.count) [
        | inl e ↦ absurd (some_message e)
        | inr (n, e) ↦ bus_take-pending next n count copied ok e
      ])
