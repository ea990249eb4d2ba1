-- ===== src/NeuroSwap/Device/Requests.antt =====
-- What a request does to the network and to the data, and how it is completed.
use doomsday_kernel_modules.Base.{
  ℕ, suc, ◌+◌, ◌≡◌, refl, sym, ap, ◌∙◌, true, false, List, [], ◌∷◌, ◌++◌, length, length-append,
  if◌then◌else◌, Bool-cases, inl, inr,
}
use doomsday_kernel_modules.NeuroSwap.Float.{Float}
use doomsday_kernel_modules.NeuroSwap.Math.Rows.{concat}
use doomsday_kernel_modules.NeuroSwap.Network.{Weights, LstmState, lstm_memorize, lstm_recall}
use doomsday_kernel_modules.NeuroSwap.Network.Runs.{lstm_memorize-append, lstm_recall_add}
use doomsday_kernel_modules.NeuroSwap.Device.{
  Request, Answer, BlkStatus, blk_sts_ok, blk_sts_ioerr, past_end, serve, nswap_queue_rq,
}

abbrev pub refusals : BlkStatus → ℕ
refusals blk_sts_ok = 0
refusals blk_sts_ioerr = 1

-- How often a request is completed: by `blk_mq_end_request`, and by the block layer for a status that is
-- not BLK_STS_OK.
abbrev pub completions : {A : Type 0} → Answer A → ℕ
completions answer = length answer.ended + refusals answer.returned

module _ (float : Float) (weights : Weights float.F) where
  open float use {F}

  serve_write :
      (segments : List (List ℕ)) (lstm : LstmState F)
      → serve float weights true segments lstm
        ≡ (lstm_memorize float weights lstm (concat segments), segments, length segments)
  unfolding serve lstm_memorize
  serve_write [] lstm = refl
  serve_write (src ∷ segments) lstm =
      ap (λ (r : LstmState F × List (List ℕ) × ℕ). (r.0, src ∷ r.1, suc r.2))
        (serve_write segments (lstm_memorize float weights lstm src))
      ∙ ap (λ s. (s, src ∷ segments, length (src ∷ segments)))
          (sym (lstm_memorize-append float weights src (concat segments) lstm))

  serve_read :
      (segments : List (List ℕ)) (lstm : LstmState F)
      → (
        (serve float weights false segments lstm).0,
        concat ((serve float weights false segments lstm).1),
      )
        ≡ lstm_recall float weights lstm (length (concat segments))
  unfolding serve lstm_recall
  serve_read [] lstm = refl
  serve_read (dst ∷ segments) lstm =
      let (next, seq) = lstm_recall float weights lstm (length dst) in
      ap (λ (p : LstmState F × List ℕ). (p.0, seq ++ p.1)) (serve_read segments next)
      ∙ sym (lstm_recall_add float weights (length dst) (length (concat segments)) lstm)
      ∙ ap (λ (n : ℕ). lstm_recall float weights lstm n) (sym (length-append dst (concat segments)))

  -- An accepted write runs the network over the bytes of the request, and an accepted read gives what the
  -- network recalls for their number, in the order of the request, however the request is cut into segments.
  pub nswap_queue_rq-concat :
      (nr_sectors : ℕ) (lstm : LstmState F) (rq : Request)
      → past_end nr_sectors rq ≡ false
      → (let answer = nswap_queue_rq float weights nr_sectors lstm rq in
          (answer.lstm, concat answer.segments) ≡ (
            if rq.is_write
            then (lstm_memorize float weights lstm (concat rq.segments), concat rq.segments)
            else lstm_recall float weights lstm (length (concat rq.segments))))
  unfolding nswap_queue_rq
  nswap_queue_rq-concat nr_sectors lstm rq inside = rw inside (elim (Bool-cases rq.is_write) [
    | inl write ↦ rw (write, serve_write rq.segments lstm)
    | inr read ↦ rw read (serve_read rq.segments lstm)
  ])
