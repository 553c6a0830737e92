-- ===== src/Cli/Gen.antt =====
-- `ethernal validator gen` (bins/ethernal/src/gen_cmd.rs): the checks before the work, and the
-- results of the worker threads, which arrive in any order, put together. `A` is an entry.
pub mod Select
pub mod Worker
use eth_utils.Prelude.{
  ℕ, suc, Bool, true, false, not, ◌&&◌, Option, none, some, List, [], ◌∷◌, Result, ok, err, ◌>>=◌,
  get_elem?, set, drop, replicate, ltb, ◌==◌, if◌then◌else◌,
}
use eth_utils.Prelude.Bytes.{Bytes, text, bytes_eq}
use eth_utils.Core.Network.{Network, mainnet, hoodi, sepolia, holesky}
use eth_utils.Core.Deposit
use eth_utils.Core.Deposit.{DepositError}
use eth_utils.Cli.Errors
use eth_utils.Cli.Errors.{AppError, exit, mainnet_ack_required}

-- What the checks read of `GenConfig`.
pub record GenConfig : Type 0 where
  pub network : Network
  pub mainnet_ack : Bool
  pub withdrawal_credentials : Bytes

unfoldable pub is_mainnet : Network → Bool
is_mainnet mainnet = true
is_mainnet hoodi = false
is_mainnet sepolia = false
is_mainnet holesky = false

unfoldable pub all_zero : Bytes → Bool
all_zero [] = true
all_zero (b ∷ bs) = (b == 0) && all_zero bs

unfoldable pub first_is : ℕ → Bytes → Bool
first_is b [] = false
first_is b (c ∷ cs) = c == b

module _ {F : Type 0} where
  unfoldable pub is_cancelled_deposit : DepositError F → Bool
  is_cancelled_deposit DepositError.cancelled = true
  is_cancelled_deposit e = false

module _ {F S : Type 0} where
  -- The early returns of `run_gen_with_deps` before the keystores are scanned.
  unfoldable pub check_config : GenConfig → Result (AppError F S) (Unit {0})
  unfolding is_mainnet all_zero first_is
  check_config cfg =
      if is_mainnet cfg.network && not cfg.mainnet_ack
      then err mainnet_ack_required
      else if bytes_eq cfg.withdrawal_credentials (replicate 32 0)
      then err (
          exit (text "withdrawal credentials: all-zero credentials are not allowed (placeholder)")
            2)
      else if first_is 1 cfg.withdrawal_credentials && all_zero (drop 12 cfg.withdrawal_credentials)
      then err (
          exit
            (text
              "withdrawal credentials: 0x01 credentials with zero address are not allowed (burn address)")
            2)
      else ok tt

  unfoldable pub is_cancelled_err : AppError F S → Bool
  unfolding is_cancelled_deposit
  is_cancelled_err (AppError.deposit e) = is_cancelled_deposit e
  is_cancelled_err (AppError.aborted m) = true
  is_cancelled_err e = false

-- The state of the loop over the results: the entries by their index, the error that is kept, and
-- how many entries are done.
pub record Collected (E A : Type 0) : Type 0 where
  pub entries : List (Option A)
  pub selected_err : Option (ℕ × E)
  pub done : ℕ

module _ {E : Type 0} (is_cancelled : E → Bool) where
  -- Whether a new error replaces the one that is kept.
  unfoldable pub replaces : ℕ × E → ℕ × E → Bool
  replaces (cur_idx, cur_err) (idx, e) =
      if is_cancelled cur_err && not (is_cancelled e)
      then true
      else if not (is_cancelled cur_err) && is_cancelled e
      then false
      else ltb idx cur_idx

  unfoldable pub select_err : Option (ℕ × E) → ℕ × E → Option (ℕ × E)
  unfolding replaces
  select_err none new = some new
  select_err (some cur) new = if replaces cur new then some new else some cur

module _ {E A : Type 0} (is_cancelled : E → Bool) where
  unfoldable pub collect_one : Collected E A → ℕ × Result E A → Collected E A
  unfolding select_err
  collect_one c (idx, ok entry) = record {
    entries = set c.entries idx (some entry);
    selected_err = c.selected_err;
    done = suc c.done;
  }
  collect_one c (idx, err e) = record {
    entries = c.entries;
    selected_err = select_err is_cancelled c.selected_err (idx, e);
    done = c.done;
  }

  -- The results in the order of their arrival.
  unfoldable pub collect : Collected E A → List (ℕ × Result E A) → Collected E A
  unfolding collect_one
  collect c [] = c
  collect c (r ∷ rest) = collect (collect_one c r) rest

-- `entries.into_iter().map(|e| e.unwrap()).collect()`, where `none` is a panic.
unfoldable pub unwrap_all : {A : Type 0} → List (Option A) → Option (List A)
unwrap_all [] = some []
unwrap_all (none ∷ rest) = none
unwrap_all (some a ∷ rest) = elim (unwrap_all rest) [ none ↦ none | some more ↦ some (a ∷ more) ]

-- The kept error, or else the unwrapped entries.
unfoldable pub result_of :
    {E A : Type 0} → Option (ℕ × E) → Option (List A) → Option (Result E (List A))
result_of (some (idx, e)) entries = some (err e)
result_of none none = none
result_of none (some entries) = some (ok entries)

unfoldable pub outcome : {E A : Type 0} → Collected E A → Option (Result E (List A))
unfolding unwrap_all result_of
outcome c = result_of c.selected_err (unwrap_all c.entries)

module _ {E A : Type 0} (is_cancelled : E → Bool) where
  -- What the threads' results for n public keys come to.
  unfoldable pub gather : ℕ → List (ℕ × Result E A) → Option (Result E (List A))
  unfolding outcome collect
  gather n arrivals = outcome (
      collect is_cancelled (record { entries = replicate n none; selected_err = none; done = 0 })
        arrivals)
