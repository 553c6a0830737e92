-- ===== src/Cli/Send.antt =====
-- The command that broadcasts a signed transaction (bins/ethernal/src/send_cmd.rs). A duration is a
-- number of nanoseconds.
pub mod Polling
pub mod Confirmed
use eth_utils.Prelude.{
  ℕ, zero, suc, ◌+◌, ◌-◌, ◌*◌, ◌/◌, ◌%◌, ◌^◌, Bool, true, false, not, ◌&&◌, ◌||◌, Option, none,
  some, List, [], ◌∷◌, ◌++◌, Result, ok, err, ◌>>=◌, map_err, map, ltb, leb, ◌==◌, if◌then◌else◌,
}
use eth_utils.Prelude.Bytes.{Bytes, text, bytes_eq, decimal, lower_digit}
use eth_utils.Core.Network.{Params, as_str, NetworkError, lookup_by_chain_id}
use eth_utils.Tx.Types
use eth_utils.Tx.Types.{RpcClientError, TxError}
use eth_utils.Tx.Client.{Receipt}
use eth_utils.Signer.Signed.{SignedTx}
use eth_utils.Cli.Errors.{AppError, exit, internal, aborted, tx, context, exit2}

-- A node, as the command uses it. `receipt i` is its answer to the `i`-th question for the receipt.
pub record Broadcaster : Type 0 where
  pub chain_id : Result RpcClientError ℕ
  pub send_raw_transaction : Bytes → Result TxError Bytes
  pub receipt : ℕ → Result RpcClientError (Option Receipt)

-- The clock when the deadline is set, and after the `i`-th answer; and the cancellation token
-- before and after the `i`-th sleep.
pub record Waiting : Type 0 where
  pub start : ℕ
  pub now : ℕ → ℕ
  pub cancelled_before : ℕ → Bool
  pub cancelled_after : ℕ → Bool

-- `Display` of the error.
unfoldable pub rpc_error_text : RpcClientError → Bytes
rpc_error_text e = e.method ++ (text ": " ++ e.detail)

abbrev pub second : ℕ
second = 1_000_000_000

abbrev pub millisecond : ℕ
millisecond = 1_000_000

unfoldable pub poll_interval : ℕ → ℕ
poll_interval timeout =
    if ltb timeout (2 * second)
    then (if ltb (timeout / 2) (10 * millisecond) then 10 * millisecond else timeout / 2)
    else 2 * second

-- `{:03}` of a number below 1000.
unfoldable pub three_digits : ℕ → Bytes
three_digits n = lower_digit (n / 100) ∷ lower_digit (n / 10 % 10) ∷ lower_digit (n % 10) ∷ []

unfoldable pub shown_below_second : ℕ → Bytes
shown_below_second ns =
    if ns % millisecond == 0
    then decimal (ns / millisecond) ++ text "ms"
    else if ns % 1000 == 0
    then decimal (ns / 1000) ++ (0xC2 ∷ 0xB5 ∷ text "s")
    else decimal ns ++ text "ns"

unfoldable pub shown_if : Bool → ℕ → Bytes → Bytes
shown_if b n unit = if b then decimal n ++ unit else []

unfoldable pub shown_seconds : ℕ → ℕ → Bytes
unfolding three_digits
shown_seconds s sub_ms =
    if ltb 0 sub_ms
    then decimal s ++ (text "." ++ (three_digits sub_ms ++ text "s"))
    else decimal s ++ text "s"

unfoldable pub format_go_duration : ℕ → Bytes
unfolding shown_below_second shown_if shown_seconds
format_go_duration ns =
    let secs = ns / second in
    let h = secs / 3600 in
    let m = secs % 3600 / 60 in
    if ns == 0
    then text "0s"
    else if ltb ns second
    then shown_below_second ns
    else shown_if (ltb 0 h) h (text "h")
      ++ (shown_if (ltb 0 h || ltb 0 m) m (text "m")
          ++ shown_seconds (secs % 60) (ns % second / millisecond))

module _ {F S : Type 0} (node : Broadcaster) (waiting : Waiting) (timeout : ℕ) where
  -- The rest of a round that got no receipt. `none` starts the next round.
  unfoldable pub after_no_receipt : ℕ → Option (Result (AppError F S) (Option Receipt))
  unfolding format_go_duration
  after_no_receipt i =
      if ltb (waiting.start + timeout) (waiting.now i)
      then some (
          err
            (internal (text "timed out waiting for receipt after " ++ format_go_duration timeout)))
      else if waiting.cancelled_before i
      then some (err (tx Types.cancelled))
      else if waiting.cancelled_after i
      then some (err (tx Types.cancelled))
      else none

  unfoldable pub after_answer :
      ℕ → Result RpcClientError (Option Receipt) → Option (Result (AppError F S) (Option Receipt))
  unfolding after_no_receipt rpc_error_text
  after_answer i (err e) = some (err (internal (rpc_error_text e)))
  after_answer i (ok (some rec)) = some (ok (some rec))
  after_answer i (ok none) = after_no_receipt i

  unfoldable pub round_end :
      Option (Result (AppError F S) (Option Receipt))
      → Option (Result (AppError F S) (Option Receipt))
      → Option (Result (AppError F S) (Option Receipt))
  round_end (some r) rest = some r
  round_end none rest = rest

  -- The loop from round `i` on, with fuel for so many rounds.
  unfoldable pub poll_loop : ℕ → ℕ → Option (Result (AppError F S) (Option Receipt))
  unfolding after_answer round_end
  poll_loop zero i = none
  poll_loop (suc rounds) i =
      let rest = poll_loop rounds (i + 1) in round_end (after_answer i (node.receipt i)) rest

  unfoldable pub poll_receipt : ℕ → Option (Result (AppError F S) (Option Receipt))
  unfolding poll_loop
  poll_receipt rounds = poll_loop rounds 0

pub record SendConfig : Type 0 where
  pub input_file : Bytes
  pub rpc_url : Bytes
  pub yes : Bool
  pub wait_for_receipt : Bool
  pub receipt_timeout : ℕ
  pub receipt_output_file : Bytes

-- What the surroundings of the command answer: the input's bytes, `serde_json::from_slice`, the
-- factory of broadcasters, the line read from the standard input, and `str::trim`.
pub record Surroundings (F S : Type 0) : Type 0 where
  pub input : Result Bytes Bytes
  pub from_slice : Bytes → Result Bytes SignedTx
  pub new_broadcaster : Bytes → Result (AppError F S) Broadcaster
  pub line : Result Bytes Bytes
  pub trim : Bytes → Bytes

-- The name that is shown, and the explorer.
unfoldable pub shown_network : ℕ → Result NetworkError Params → Bytes × Bytes
shown_network id (ok p) = (as_str p.name, p.explorer_url)
shown_network id (err e) = (text "chain-" ++ decimal id, [])

unfoldable pub net_name : ℕ → Bytes
unfolding shown_network
net_name id = (shown_network id (lookup_by_chain_id id)).0

unfoldable pub to_ascii_lowercase : ℕ → ℕ
to_ascii_lowercase c = if leb b'A' c && leb c b'Z' then c + 32 else c

unfoldable pub eq_ignore_ascii_case : Bytes → Bytes → Bool
unfolding to_ascii_lowercase
eq_ignore_ascii_case a b = bytes_eq (map to_ascii_lowercase a) (map to_ascii_lowercase b)

-- `line.ends_with('\n')`
unfoldable pub ends_with_newline : Bytes → Bool
ends_with_newline [] = false
ends_with_newline (c ∷ []) = c == 10
ends_with_newline (c ∷ d ∷ s) = ends_with_newline (d ∷ s)

-- The second part of the result is the outcome, and the first the transactions that were handed to
-- the node.
module _ {F S : Type 0} (cfg : SendConfig) (around : Surroundings F S) where
  unfoldable pub confirm : Bytes → Result Bytes Bytes → Result (AppError F S) (Unit {0})
  confirm net_name (err e) = err (aborted e)
  confirm net_name (ok line) =
      if ends_with_newline line
      then (if eq_ignore_ascii_case (around.trim line) net_name then ok tt else err (aborted []))
      else err (aborted (text "EOF"))

  unfoldable pub broadcast_confirmed :
      Broadcaster
      → SignedTx
      → Result (AppError F S) (Unit {0})
      → List Bytes × Result (AppError F S) Bytes
  broadcast_confirmed node signed (err e) = ([], err e)
  broadcast_confirmed node signed (ok _) =
      (signed.raw_rlp ∷ [], map_err tx (node.send_raw_transaction signed.raw_rlp))

  unfoldable pub consent : ℕ → Result (AppError F S) (Unit {0})
  unfolding net_name confirm
  consent id = if cfg.yes then ok tt else confirm (net_name id) around.line

  unfoldable pub broadcast_on :
      Broadcaster → SignedTx → Result RpcClientError ℕ → List Bytes × Result (AppError F S) Bytes
  unfolding broadcast_confirmed consent rpc_error_text
  broadcast_on node signed (err e) =
      ([], err (tx (Types.broadcast_failed (text "fetch chain ID: " ++ rpc_error_text e))))
  broadcast_on node signed (ok id) =
      if id == signed.unsigned.chain_id
      then broadcast_confirmed node signed (consent id)
      else ([], err (tx (Types.broadcast_chain_id_mismatch signed.unsigned.chain_id id)))

  unfoldable pub broadcast_dialled :
      SignedTx → Result (AppError F S) Broadcaster → List Bytes × Result (AppError F S) Bytes
  unfolding broadcast_on
  broadcast_dialled signed (err e) = ([], err e)
  broadcast_dialled signed (ok node) = broadcast_on node signed node.chain_id

  unfoldable pub broadcast_parsed : Result Bytes SignedTx → List Bytes × Result (AppError F S) Bytes
  unfolding broadcast_dialled exit2
  broadcast_parsed (err e) = ([], err (exit2 (text "invalid input JSON: " ++ e)))
  broadcast_parsed (ok signed) = broadcast_dialled signed (around.new_broadcaster cfg.rpc_url)

  -- Steps 1 to 7 of the command.
  unfoldable pub broadcast : Result Bytes Bytes → List Bytes × Result (AppError F S) Bytes
  unfolding broadcast_parsed exit2
  broadcast (err e) = ([], err (exit2 (text "--input: " ++ e)))
  broadcast (ok raw) = broadcast_parsed (around.from_slice raw)
