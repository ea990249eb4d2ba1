-- ===== src/NeuroSwap/Device.antt =====
-- The requests of neuro-swap/kmodule/kmain.c. A segment of a request is the list of its bytes.
pub mod Requests
use doomsday_kernel_modules.Base.{
  ℕ, suc, ◌+◌, ◌*◌, ◌%◌, ◌^◌, ◌≡◌, Bool, true, false, List, [], ◌∷◌, length, ltb, if◌then◌else◌,
}
use doomsday_kernel_modules.NeuroSwap.Float.{Float}
use doomsday_kernel_modules.NeuroSwap.Network.{Weights, LstmState, lstm_memorize, lstm_recall}

pub data BlkStatus : Type 0 where
  blk_sts_ok blk_sts_ioerr : BlkStatus

pub record Request : Type 0 where
  pub sector : ℕ
  pub is_write : Bool
  pub segments : List (List ℕ)

-- What a request leaves: the network, the segments, the statuses given to `blk_mq_end_request`, the number
-- of mapped segments that were not unmapped, and the returned status.
pub record Answer (A : Type 0) : Type 0 where
  pub lstm : LstmState A
  pub segments : List (List ℕ)
  pub ended : List BlkStatus
  pub mapped : ℕ
  pub returned : BlkStatus

-- `blk_rq_bytes(rq)`, the sum of the lengths of the segments.
unfoldable pub blk_rq_bytes : List (List ℕ) → ℕ
blk_rq_bytes [] = 0
blk_rq_bytes (segment ∷ segments) = length segment + blk_rq_bytes segments

-- `n << SECTOR_SHIFT`, on 64 bits
abbrev pub sectors_to_bytes : ℕ → ℕ
sectors_to_bytes n = n * 512 % 2 ^ 64

-- Whether the request ends behind the device; the sum wraps as well.
unfoldable pub past_end : ℕ → Request → Bool
unfolding blk_rq_bytes
past_end nr_sectors rq =
    ltb (sectors_to_bytes nr_sectors)
      ((sectors_to_bytes rq.sector + blk_rq_bytes rq.segments) % 2 ^ 64)

module _ (float : Float) (weights : Weights float.F) where
  open float use {F}

  -- `rq_for_each_segment(bvec, rq, iter) { ... }`: the network, the segments, and how many of them are mapped
  -- by `bvec_kmap_local`.
  unfoldable pub serve : Bool → List (List ℕ) → LstmState F → LstmState F × List (List ℕ) × ℕ
  serve is_write [] lstm = (lstm, [], 0)
  serve true (src ∷ segments) lstm =
      let (end, rest, mapped) = serve true segments (lstm_memorize float weights lstm src) in
      (end, src ∷ rest, suc mapped)
  serve false (dst ∷ segments) lstm =
      let (next, seq) = lstm_recall float weights lstm (length dst) in
      let (end, rest, mapped) = serve false segments next in (end, seq ∷ rest, suc mapped)

  unfoldable pub nswap_queue_rq : ℕ → LstmState F → Request → Answer F
  unfolding past_end serve
  nswap_queue_rq nr_sectors lstm rq =
      let (end, segments, mapped) = serve rq.is_write rq.segments lstm in
      if past_end nr_sectors rq
      then record {
        lstm = lstm;
        segments = rq.segments;
        ended = blk_sts_ioerr ∷ [];
        mapped = 0;
        returned = blk_sts_ioerr;
      }
      else record {
        lstm = end;
        segments = segments;
        ended = blk_sts_ok ∷ [];
        mapped = mapped;
        returned = blk_sts_ok;
      }
