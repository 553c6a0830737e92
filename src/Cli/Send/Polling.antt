-- ===== src/Cli/Send/Polling.antt =====
-- The loop that waits for a receipt ends in time, with the answer of its last round.
use eth_utils.Prelude.{
  ℕ, ◌+◌, ◌*◌, ◌≤◌, ◌<◌, ◌≡◌, ◌⊎◌, true, false, Option, none, some, Result, ok, err, ◌++◌, arith,
}
use eth_utils.Prelude.Bytes.{text}
use eth_utils.Tx.Types
use eth_utils.Tx.Types.{RpcClientError}
use eth_utils.Tx.Client.{Receipt}
use eth_utils.Cli.Errors.{AppError, internal, tx}
use eth_utils.Cli.Send.{
  Broadcaster, Waiting, rpc_error_text, poll_interval, millisecond, format_go_duration,
}

pub poll_interval_lower : (timeout : ℕ) → 10 * millisecond ≤ poll_interval timeout
unfolding poll_interval
poll_interval_lower timeout = ground arith

-- The round gets no receipt, before the deadline, and is not cancelled.
pub record IsQuiet (node : Broadcaster) (waiting : Waiting) (timeout i : ℕ) : Type 0 where
  pub unanswered : node.receipt i ≡ ok none
  pub in_time : waiting.now i ≤ waiting.start + timeout
  pub kept_before : waiting.cancelled_before i ≡ false
  pub kept_after : waiting.cancelled_after i ≡ false

module _ {F S : Type 0} (node : Broadcaster) (waiting : Waiting) (timeout : ℕ) where
  -- How a round ends the wait, in the order of the code.
  pub data Ends (i : ℕ) : Result (AppError F S) (Option Receipt) → Type 0 where
    failed :
        (e : RpcClientError) → node.receipt i ≡ err e → Ends i (err (internal (rpc_error_text e)))
    found : (r : Receipt) → node.receipt i ≡ ok (some r) → Ends i (ok (some r))
    timed_out :
        node.receipt i ≡ ok none
        → waiting.start + timeout < waiting.now i
        → Ends i (
            err (
              internal (text "timed out waiting for receipt after " ++ format_go_duration timeout)))
    interrupted :
        node.receipt i ≡ ok none
        → waiting.now i ≤ waiting.start + timeout
        → (waiting.cancelled_before i ≡ true) ⊎ (waiting.cancelled_after i ≡ true)
        → Ends i (err (tx Types.cancelled))

  -- The wait ended in a round with this outcome, after quiet rounds only.
  pub record Polled (bound : ℕ) (outcome : Option (Result (AppError F S) (Option Receipt)))
      : Type 0 where
    pub last : ℕ
    pub result : Result (AppError F S) (Option Receipt)
    pub in_bound : last ≤ bound
    pub quiet : (i : ℕ) → i < last → IsQuiet node waiting timeout i
    pub ends : Ends last result
    pub returned : outcome ≡ some result
