-- ===== src/TelegramFs/Chat/Stream.antt =====
-- A reader of a chat while others write: what the reads return is the text of the chat, each byte once.
use doomsday_kernel_modules.Base.{
  append_nil, ℕ, zero, suc, ◌+◌, ◌-◌, ◌≤◌, ◌≡◌, refl, sym, ap, ◌∙◌, Bool, true, false, Bool-cases,
  inl, inr, List, [], ◌∷◌, ◌++◌, arith, length, leb, take, drop, length-append, length-take, min,
}
use doomsday_kernel_modules.TelegramFs.Kernel.{Kernel}
use doomsday_kernel_modules.TelegramFs.Bus.{Outcome, done, error, waiting, eagain, efault}
use doomsday_kernel_modules.TelegramFs.Chat.{Chat, msg_buff_size, chat_append, chat_take, chat_read}
use doomsday_kernel_modules.TelegramFs.Chat.Text.{IsChat, content, chat_append-content}

-- Two prefixes of a list.
take-take : (p n : ℕ) (xs : List ℕ) → p ≤ n → take p (take n xs) ≡ take p xs
take-take zero n xs h = refl
take-take (suc p) zero xs h = elim h [ ]
take-take (suc p) (suc n) [] h = refl
take-take (suc p) (suc n) (x ∷ xs) h = ap (λ r. x ∷ r) (take-take p n xs (omega arith))

-- A prefix in two parts.
take-drop : (p n : ℕ) (xs : List ℕ) → take (p + n) xs ≡ take p xs ++ take n (drop p xs)
take-drop zero n xs = ap (λ (k : ℕ). take k xs) (omega arith)
take-drop (suc p) n [] =
    ap (λ (k : ℕ). take k []) {x = suc p + n} {y = suc (p + n)} (omega arith) ∙ nil n
  where
    nil : (m : ℕ) → ◌≡◌ {A = List ℕ} [] (take m [])
    nil zero = refl
    nil (suc m) = refl
take-drop (suc p) n (x ∷ xs) =
    ap (λ (k : ℕ). take k (x ∷ xs)) {x = suc p + n} {y = suc (p + n)} (omega arith)
    ∙ ap (λ r. x ∷ r) (take-drop p n xs)

-- A prefix of the first of two lists.
take-prefix : (p : ℕ) (xs ys : List ℕ) → p ≤ length xs → take p (xs ++ ys) ≡ take p xs
take-prefix zero xs ys h = refl
take-prefix (suc p) [] ys h = elim h [ ]
take-prefix (suc p) (x ∷ xs) ys h = ap (λ r. x ∷ r) (take-prefix p xs ys (omega arith))

length-content : {chat : Chat} → IsChat chat → length (content chat) ≡ chat.buf_len
length-content {chat = chat} ok =
    omega (arith, length-take chat.buf_len chat.buffer, ok.bytes, ok.fits)

-- An open file of a chat, with the bytes that its reads have returned.
pub record Reader : Type 0 where
  pub chat : Chat
  pub ppos : ℕ
  pub seen : List ℕ

-- The reads stand inside the text and have returned the text up to where they stand.
pub record IsReader (reader : Reader) : Type 0 where
  pub chat_ok : IsChat reader.chat
  pub inside : reader.ppos ≤ reader.chat.buf_len
  pub seen_eq : reader.seen ≡ take reader.ppos (content reader.chat)

-- What happens to the chat: a writer appends a text, or the reader reads without waiting.
pub data Event : Type 0 where
  appended : List ℕ → Event
  read : ℕ → Bool → Event

abbrev pub bytes_of : Outcome (List ℕ) → List ℕ
bytes_of (done bytes) = bytes
bytes_of (error e) = []
bytes_of waiting = []

abbrev pub receive : Reader → Outcome (List ℕ) × ℕ → Reader
receive reader (result, ppos) = record reader { ppos = ppos; seen = reader.seen ++ bytes_of result }

receive_nothing :
    (reader : Reader) (e : Outcome (List ℕ))
    → bytes_of e ≡ []
    → IsReader reader
    → IsReader (receive reader (e, reader.ppos))
receive_nothing reader e none ok = record {
  chat_ok = ok.chat_ok;
  inside = ok.inside;
  seen_eq = rw none (append_nil reader.seen ∙ ok.seen_eq);
}

-- The bytes that `chat_take` returns follow those that the reader has.
receive_next :
    (reader : Reader) (n : ℕ)
    → reader.ppos + n ≤ reader.chat.buf_len
    → IsReader reader
    → IsReader
        (receive reader (done (take n (drop reader.ppos reader.chat.buffer)), reader.ppos + n))
receive_next reader n room ok = record {
  chat_ok = ok.chat_ok;
  inside = room;
  seen_eq =
      ap (λ r. r ++ take n (drop reader.ppos reader.chat.buffer))
        (ok.seen_eq ∙ take-take reader.ppos reader.chat.buf_len reader.chat.buffer ok.inside)
      ∙ sym (take-drop reader.ppos n reader.chat.buffer)
      ∙ sym (take-take (reader.ppos + n) reader.chat.buf_len reader.chat.buffer room);
}

chat_take-IsReader :
    (reader : Reader) (count : ℕ) (copied : Bool)
    → IsReader reader
    → IsReader (receive reader (chat_take reader.chat reader.ppos count copied))
unfolding chat_take
chat_take-IsReader reader count true ok =
    receive_next reader (min count (reader.chat.buf_len - reader.ppos)) (omega (arith, ok.inside))
      ok
chat_take-IsReader reader count false ok = receive_nothing reader (error efault) refl ok

chat_read-IsReader :
    (reader : Reader) (count : ℕ) (copied : Bool)
    → IsReader reader
    → IsReader (receive reader (chat_read reader.chat reader.ppos true count copied []))
unfolding chat_read
chat_read-IsReader reader count copied ok =
    elim (Bool-cases (leb reader.chat.buf_len reader.ppos)) [
      | inl at_end ↦ rw at_end (receive_nothing reader (error eagain) refl ok)
      | inr more ↦ rw more (chat_take-IsReader reader count copied ok)
    ]

module _ (kernel : Kernel) where
  abbrev pub after : Reader → List Event → Reader
  after reader [] = reader
  after reader (appended text ∷ events) =
      after record reader { chat = chat_append kernel reader.chat text } events
  after reader (read count copied ∷ events) =
      after (receive reader (chat_read reader.chat reader.ppos true count copied [])) events

  append-IsReader :
      (reader : Reader) (text : List ℕ)
      → IsReader reader
      → IsReader record reader { chat = chat_append kernel reader.chat text }
  append-IsReader reader text ok =
      let (chat_ok, grows) = chat_append-content kernel reader.chat text ok.chat_ok in
      let long =
        length-append (content reader.chat) (take (msg_buff_size - reader.chat.buf_len - 1) text) in
      record {
        chat_ok = chat_ok;
        inside = omega (
          arith,
          ap length grows,
          long,
          length-content chat_ok,
          length-content ok.chat_ok,
          ok.inside,
        );
        seen_eq =
            ok.seen_eq
            ∙ sym (
                take-prefix reader.ppos (content reader.chat) _
                  (omega (arith, length-content ok.chat_ok, ok.inside)))
            ∙ ap (λ r. take reader.ppos r) (sym grows);
      }

  -- However appends to a chat and reads of it are ordered, the reader that has received the text of the chat
  -- up to its position, which is inside the text, still has after them.
  pub after-IsReader :
      (events : List Event) (reader : Reader) → IsReader reader → IsReader (after reader events)
  after-IsReader [] reader ok = ok
  after-IsReader (appended text ∷ events) reader ok =
      after-IsReader events _ (append-IsReader reader text ok)
  after-IsReader (read count copied ∷ events) reader ok =
      after-IsReader events _ (chat_read-IsReader reader count copied ok)
