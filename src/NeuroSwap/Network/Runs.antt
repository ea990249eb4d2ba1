-- ===== src/NeuroSwap/Network/Runs.antt =====
-- Runs of the network over bytes that come in parts.
use doomsday_kernel_modules.Base.{ℕ, zero, suc, ◌+◌, ◌≡◌, refl, ap, ◌∙◌, List, [], ◌∷◌, ◌++◌, arith}
use doomsday_kernel_modules.NeuroSwap.Float.{Float}
use doomsday_kernel_modules.NeuroSwap.Network.{Weights, LstmState, lstm_memorize, lstm_recall}

module _ (float : Float) (weights : Weights float.F) where
  open float use {F}

  pub lstm_memorize-append :
      (a b : List ℕ) (s : LstmState F)
      → lstm_memorize float weights s (a ++ b)
        ≡ lstm_memorize float weights (lstm_memorize float weights s a) b
  unfolding lstm_memorize
  lstm_memorize-append [] b s = refl
  lstm_memorize-append (x ∷ a) b s = lstm_memorize-append a b _

  pub lstm_recall_add :
      (m n : ℕ) (s : LstmState F)
      → lstm_recall float weights s (m + n) ≡ (
          let (s', first) = lstm_recall float weights s m in
          let (s'', rest) = lstm_recall float weights s' n in (s'', first ++ rest))
  unfolding lstm_recall
  lstm_recall_add zero n s =
      ap (λ (k : ℕ). lstm_recall float weights s k) {x = 0 + n} {y = n} (omega arith)
  lstm_recall_add (suc m) n s =
      ap (λ (k : ℕ). lstm_recall float weights s k) {x = suc m + n} {y = suc (m + n)} (omega arith)
      ∙ rw (lstm_recall_add m n)
