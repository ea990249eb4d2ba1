-- ===== src/TelegramFs/Chat/Text.antt =====
-- The text of a chat: the bytes of its buffer up to `buf_len`.
use doomsday_kernel_modules.Base.{
  append_assoc, ℕ, zero, suc, ◌+◌, ◌-◌, ◌≤◌, ◌<◌, ◌≡◌, refl, ap, ◌∙◌, false, List, [], ◌∷◌, ◌++◌,
  arith, length, ◌==◌, take, drop, length-append, length-take, length-drop,
}
use doomsday_kernel_modules.TelegramFs.Kernel.{Kernel}
use doomsday_kernel_modules.TelegramFs.Chat.{Chat, msg_buff_size, write_at, chat_append}

-- The invariant of `struct chat_dev`: the text and its closing zero fit the buffer.
pub record IsChat (chat : Chat) : Type 0 where
  pub bytes : length chat.buffer ≡ msg_buff_size
  pub fits : chat.buf_len < msg_buff_size

abbrev pub content : Chat → List ℕ
content chat = take chat.buf_len chat.buffer

take_eq : {n m : ℕ} (xs : List ℕ) → n ≡ m → take n xs ≡ take m xs
take_eq xs e = ap (λ k. take k xs) e

take_all : (xs ys : List ℕ) → take (length xs) (xs ++ ys) ≡ xs
take_all [] ys = refl
take_all (x ∷ xs) ys = ap (λ r. x ∷ r) (take_all xs ys)

-- A prefix that reaches past the first of two lists.
take-append :
    (at k : ℕ) (xs ys : List ℕ)
    → at ≤ length xs
    → take (at + k) (take at xs ++ ys) ≡ take at xs ++ take k ys
take-append zero k xs ys h = take_eq ys (omega arith)
take-append (suc at) k [] ys h = elim h [ ]
take-append (suc at) k (x ∷ xs) ys h =
    take_eq {n = suc at + k} {m = suc (at + k)} (x ∷ (take at xs ++ ys)) (omega arith)
    ∙ ap (λ r. x ∷ r) (take-append at k xs ys (omega arith))

pub length-write_at :
    (array bytes : List ℕ) (at : ℕ)
    → at + length bytes ≤ length array
    → length (write_at array at bytes) ≡ length array
unfolding write_at
length-write_at array bytes at fits =
    let front = length-append (take at array) (bytes ++ drop (at + length bytes) array) in
    let back = length-append bytes (drop (at + length bytes) array) in
    omega (arith, front, back, length-take at array, length-drop (at + length bytes) array)

-- The bytes up to the end of what is written, without the last one.
pub take-write_at :
    (array bytes : List ℕ) (at last : ℕ)
    → at ≤ length array
    → take (at + length bytes) (write_at array at (bytes ++ (last ∷ []))) ≡ take at array ++ bytes
unfolding write_at
take-write_at array bytes at last fits =
    let behind = drop (at + length (bytes ++ (last ∷ []))) array in
    take-append at (length bytes) array ((bytes ++ (last ∷ [])) ++ behind) fits
    ∙ ap (λ r. take at array ++ r)
        (ap (λ r. take (length bytes) r) (append_assoc bytes (last ∷ []) behind)
          ∙ take_all bytes ((last ∷ []) ++ behind))

module _ (kernel : Kernel) where
  open kernel use {scnprintf, scnprintf_cuts}

  -- There is always room for the closing zero, so the text is written.
  chat_append-room :
      (chat : Chat) (text : List ℕ)
      → chat.buf_len < msg_buff_size
      → chat_append kernel chat text ≡ (
          let bytes = take (msg_buff_size - chat.buf_len - 1) text in
          record chat {
            buffer = write_at chat.buffer chat.buf_len (bytes ++ (0 ∷ []));
            buf_len = chat.buf_len + length bytes;
          })
  unfolding chat_append
  chat_append-room chat text fits =
      let room : (msg_buff_size - chat.buf_len == 0) ≡ false = ground arith in
      rw (room, scnprintf_cuts (msg_buff_size - chat.buf_len) text)

  -- In a chat whose text and closing zero fit the buffer, chat_append keeps that, and appends as many
  -- bytes of the new text as leave room for the closing zero.
  pub chat_append-content :
      (chat : Chat) (text : List ℕ)
      → IsChat chat
      → IsChat (chat_append kernel chat text)
        × (content (chat_append kernel chat text)
            ≡ content chat ++ take (msg_buff_size - chat.buf_len - 1) text)
  chat_append-content chat text ok =
      let bytes = take (msg_buff_size - chat.buf_len - 1) text in
      let short = length-take (msg_buff_size - chat.buf_len - 1) text in
      let closed = length-append bytes (0 ∷ []) in
      rw (chat_append-room chat text ok.fits) (
        record {
          bytes =
              length-write_at chat.buffer (bytes ++ (0 ∷ [])) chat.buf_len
                (omega (arith, short, closed, ok.bytes, ok.fits))
              ∙ ok.bytes;
          fits = omega (arith, short, ok.fits);
        },
        take-write_at chat.buffer bytes chat.buf_len 0 (omega (arith, ok.bytes, ok.fits)),
      )
