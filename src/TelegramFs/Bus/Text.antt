-- ===== src/TelegramFs/Bus/Text.antt =====
-- The text of a message that waits on the bus, and what of it fits the 128 bytes of an element.
use doomsday_kernel_modules.Base.{
  c_text_plain, Lacks, ℕ, zero, suc, ◌↔◌, ◌+◌, ◌-◌, ◌≤◌, ◌<◌, ◌≡◌, refl, ap, List, [], ◌∷◌, ◌++◌,
  arith, length, take, drop, length-append, length-take, take-append-drop, min,
}
use doomsday_kernel_modules.TelegramFs.Kernel.{Kernel}
use doomsday_kernel_modules.TelegramFs.Bus.{bus_message_size, outgoing_text, outgoing}

pub take_enough : (n : ℕ) (text : List ℕ) → length text ≤ n → take n text ≡ text
take_enough zero [] h = refl
take_enough zero (c ∷ text) h = elim h [ ]
take_enough (suc n) [] h = refl
take_enough (suc n) (c ∷ text) h = ap (λ r. c ∷ r) (take_enough n text (omega arith))

module _ (kernel : Kernel) where
  open kernel use {scnprintf_cuts, show_int, show_int_digit}

  -- The element of the queue holds the whole text where that has at most 127 bytes, and its first 127 bytes
  -- where it has more; `len` is the number of bytes held.
  pub outgoing_holds :
      (idx : ℕ) (msg : List ℕ) (n : ℕ)
      → ((outgoing kernel idx msg n).payload
            ++ drop (bus_message_size - 1) (outgoing_text kernel idx msg n)
          ≡ outgoing_text kernel idx msg n)
        × ((outgoing kernel idx msg n).len ≡ length (outgoing kernel idx msg n).payload)
        × ((outgoing kernel idx msg n).len
            ≡ min (bus_message_size - 1) (length (outgoing_text kernel idx msg n)))
  unfolding outgoing
  outgoing_holds idx msg n =
      let text = outgoing_text kernel idx msg n in
      rw (scnprintf_cuts bus_message_size text)
        (take-append-drop 127 text, refl, length-take 127 text)

  length-outgoing_text :
      (idx : ℕ) (msg : List ℕ)
      → idx < 10
      → Lacks 0 msg
      → length (outgoing_text kernel idx msg (length msg)) ≡ length msg + 7
  unfolding outgoing_text
  length-outgoing_text idx msg h plain =
      let whole = take_enough (length msg) msg (omega arith) in
      rw (show_int_digit idx h, whole, c_text_plain msg plain)
        (omega (arith, length-append msg (10 ∷ [])))

  -- For a chat with a number of one digit, an element of the queue holds the whole text of a message
  -- without a zero byte exactly when the message has at most 120 bytes.
  pub outgoing_whole_iff :
      (idx : ℕ) (msg : List ℕ)
      → idx < 10
      → Lacks 0 msg
      → ((outgoing kernel idx msg (length msg)).payload ≡ outgoing_text kernel idx msg (length msg))
        ↔ (length msg ≤ 120)
  unfolding outgoing
  outgoing_whole_iff idx msg h plain =
      let text = outgoing_text kernel idx msg (length msg) in
      let long = length-outgoing_text idx msg h plain in
      rw (scnprintf_cuts bus_message_size text) (
        λ e. omega (arith, ap length e, length-take 127 text, long),
        λ short. take_enough 127 text (omega (arith, long)),
      )
