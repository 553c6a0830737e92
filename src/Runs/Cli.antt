-- ===== src/Runs/Cli.antt =====
-- The theorems on the command-line program at concrete inputs.
use eth_utils.Prelude.{◌+◌, ◌*◌, ◌≡◌, ◌↔◌, ◌⊎◌, none, false, [], ◌∷◌, ◌++◌, take, ok}
use eth_utils.Prelude.Bytes.{Bytes, text}
use eth_utils.Signer.Errors
use eth_utils.Runs.Signing.{signed}
use eth_utils.Cli.Errors.{AppError, exit_code_for}
use eth_utils.Cli.Errors.Codes.{IsAbort, exit_code_for-IsAbort_iff}
use eth_utils.Cli.Send.{Broadcaster, Waiting, SendConfig, Surroundings, broadcast}
use eth_utils.Cli.Send.Confirmed.{IsKept, IsConfirmed, broadcast-IsConfirmed}

-- A refusal on the device, under two messages.
abbrev refused : AppError Bytes Bytes
refused =
    AppError.context (text "sign")
      (AppError.signer (Errors.context (text "ledger") Errors.user_rejected))

exit_code_for-IsAbort_example : (exit_code_for refused ≡ 4) ↔ IsAbort refused
exit_code_for-IsAbort_example = exit_code_for-IsAbort_iff refused

-- A node without a receipt, and a clock that the sleep moves on by two seconds.
abbrev node : Broadcaster
node = record {
  chain_id = ok 560_048;
  send_raw_transaction = λ raw. ok (text "0xaa");
  receipt = λ i. ok none;
}

abbrev waiting : Waiting
waiting = record {
  start = 5;
  now = λ i. 6 + i * 2_000_000_000;
  cancelled_before = λ i. false;
  cancelled_after = λ i. false;
}

abbrev config : SendConfig
config = record {
  input_file = text "signed.json";
  rpc_url = text "http://localhost:8545";
  yes = false;
  wait_for_receipt = false;
  receipt_timeout = 60_000_000_000;
  receipt_output_file = [];
}

abbrev around : Surroundings Bytes Bytes
around = record {
  input = ok (text "{}");
  from_slice = λ json. ok signed;
  new_broadcaster = λ url. ok node;
  line = ok (text "HOODI" ++ (10 ∷ []));
  trim = λ line. take 5 line;
}

broadcast_example :
    IsKept config around (broadcast config around around.input)
    ⊎ IsConfirmed config around around.input (broadcast config around around.input)
broadcast_example = broadcast-IsConfirmed config around around.input
