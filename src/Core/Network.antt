-- ===== src/Core/Network.antt =====
-- The networks and their constants (crates/ethernal-core/src/network.rs).
pub mod Laws
use Prim.Native.Nat.{bit_or}
use eth_utils.Prelude.{
  ℕ, zero, suc, ◌+◌, ◌-◌, ◌*◌, ◌%◌, Bool, ◌&&◌, Option, none, some, List, [], ◌∷◌, ◌++◌, Result, ok,
  err, and_then, length, replicate, get_elem?, ltb, leb, ◌==◌, if◌then◌else◌,
}
use eth_utils.Prelude.Bytes.{Bytes, text, bytes_eq, decimal}

pub data Network : Type 0 where
  mainnet hoodi sepolia holesky : Network

abbrev pub all_networks : List Network
all_networks = mainnet ∷ hoodi ∷ sepolia ∷ holesky ∷ []

unfoldable pub as_str : Network → Bytes
as_str mainnet = text "mainnet"
as_str hoodi = text "hoodi"
as_str sepolia = text "sepolia"
as_str holesky = text "holesky"

pub data NetworkError : Type 0 where
  unknown_network unsupported_network : Bytes → NetworkError
  unknown_chain_id : ℕ → NetworkError

-- `Display` of the errors.
unfoldable pub network_error_text : NetworkError → Bytes
network_error_text (unknown_network name) =
    text "unknown network \""
    ++ (name ++ text "\": must be one of \"mainnet\", \"hoodi\", \"sepolia\", \"holesky\"")
network_error_text (unsupported_network name) =
    text "unsupported network \""
    ++ (name ++ text "\": must be one of \"mainnet\", \"hoodi\", \"sepolia\", \"holesky\"")
network_error_text (unknown_chain_id id) =
    text "unknown chain ID " ++ (decimal id ++ text ": not a supported network")

pub record Params : Type 0 where
  pub name : Network
  pub genesis_fork_version : Bytes
  pub chain_id : ℕ
  pub deposit_contract_address : Bytes
  pub explorer_url : Bytes

abbrev pub domain_deposit : Bytes
domain_deposit = 0x03 ∷ 0x00 ∷ 0x00 ∷ 0x00 ∷ []

abbrev pub zero_genesis_validators_root : Bytes
zero_genesis_validators_root = replicate 32 0

-- `none` is the panic.
hex_nibble : ℕ → Option ℕ
hex_nibble c =
    if leb b'0' c && leb c b'9'
    then some (c - b'0')
    else if leb b'a' c && leb c b'f'
    then some (c - b'a' + 10)
    else none

hex_pair : Option ℕ → Option ℕ → Option ℕ
hex_pair hi lo = and_then hi (λ h. and_then lo (λ l. some (bit_or (h * 16 % 256) l)))

-- The first argument counts the rounds of the loop that are left.
hex_literal_loop : ℕ → ℕ → Bytes → Bytes → Option Bytes
unfolding hex_nibble hex_pair
hex_literal_loop zero i bytes out = some out
hex_literal_loop (suc rounds) i bytes out =
    and_then
      (hex_pair (and_then (get_elem? bytes (2 * i)) hex_nibble)
        (and_then (get_elem? bytes (2 * i + 1)) hex_nibble))
      (λ b. hex_literal_loop rounds (i + 1) bytes (out ++ (b ∷ [])))

hex_literal : Bytes → Option Bytes
unfolding hex_literal_loop
hex_literal s = if length s == 40 then hex_literal_loop 20 0 s [] else none

-- A literal that panics is refused when the program is compiled, so the last case never runs.
compiled : Option Bytes → Bytes
compiled (some a) = a
compiled none = []

unfoldable pub lookup : Network → Params
unfolding hex_literal compiled
lookup mainnet = record {
  name = mainnet;
  genesis_fork_version = 0x00 ∷ 0x00 ∷ 0x00 ∷ 0x00 ∷ [];
  chain_id = 1;
  deposit_contract_address =
      compiled (hex_literal (text "00000000219ab540356cbb839cbe05303d7705fa"));
  explorer_url = text "https://etherscan.io";
}
lookup hoodi = record {
  name = hoodi;
  genesis_fork_version = 0x10 ∷ 0x00 ∷ 0x09 ∷ 0x10 ∷ [];
  chain_id = 560048;
  deposit_contract_address =
      compiled (hex_literal (text "00000000219ab540356cbb839cbe05303d7705fa"));
  explorer_url = text "https://hoodi.etherscan.io";
}
lookup sepolia = record {
  name = sepolia;
  genesis_fork_version = 0x90 ∷ 0x00 ∷ 0x00 ∷ 0x69 ∷ [];
  chain_id = 11155111;
  deposit_contract_address =
      compiled (hex_literal (text "7f02c3e3c98b133055b8b348b2ac625669ed295d"));
  explorer_url = text "https://sepolia.etherscan.io";
}
lookup holesky = record {
  name = holesky;
  genesis_fork_version = 0x01 ∷ 0x01 ∷ 0x70 ∷ 0x00 ∷ [];
  chain_id = 17000;
  deposit_contract_address =
      compiled (hex_literal (text "4242424242424242424242424242424242424242"));
  explorer_url = text "https://holesky.etherscan.io";
}

unfoldable pub lookup_name : Bytes → Result NetworkError Params
lookup_name name =
    if bytes_eq name (text "mainnet")
    then ok (lookup mainnet)
    else if bytes_eq name (text "hoodi")
    then ok (lookup hoodi)
    else if bytes_eq name (text "sepolia")
    then ok (lookup sepolia)
    else if bytes_eq name (text "holesky")
    then ok (lookup holesky)
    else err (unknown_network name)

-- The loop over the networks that are left.
lookup_chain_loop : List Network → ℕ → Result NetworkError Params
lookup_chain_loop [] chain_id = err (unknown_chain_id chain_id)
lookup_chain_loop (n ∷ rest) chain_id =
    let p = lookup n in if p.chain_id == chain_id then ok p else lookup_chain_loop rest chain_id

unfoldable pub lookup_by_chain_id : ℕ → Result NetworkError Params
unfolding lookup_chain_loop
lookup_by_chain_id chain_id = lookup_chain_loop all_networks chain_id

unfoldable pub parse_flag : Bytes → Result NetworkError Network
parse_flag s =
    if bytes_eq s (text "mainnet")
    then ok mainnet
    else if bytes_eq s (text "hoodi")
    then ok hoodi
    else if bytes_eq s (text "sepolia")
    then ok sepolia
    else if bytes_eq s (text "holesky")
    then ok holesky
    else err (unsupported_network s)
