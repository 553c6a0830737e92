-- ===== src/Core/Network/Laws.antt =====
-- The name and chain-ID lookups of network.rs agree with the table of constants.
use eth_utils.Prelude.{
  ℕ, ◌≡◌, refl, ◌↔◌, Bool-cases, inl, inr, List, [], ◌∷◌, Result, ok, err, length, All, arith, ◌==◌,
}
use eth_utils.Prelude.Bytes.{Bytes, IsByte, text, bytes_eq, bytes_eq_iff}
use eth_utils.Core.Network.{
  Network, mainnet, hoodi, sepolia, holesky, NetworkError, unknown_network, Params, as_str, lookup,
  lookup_name, all_networks, lookup_chain_loop, lookup_by_chain_id, parse_flag,
}

parse_flag-as_str : (n : Network) → parse_flag (as_str n) ≡ ok n
unfolding parse_flag as_str bytes_eq
parse_flag-as_str mainnet = refl
parse_flag-as_str hoodi = refl
parse_flag-as_str sepolia = refl
parse_flag-as_str holesky = refl

as_str_of_parse_flag : (s : Bytes) (n : Network) → parse_flag s ≡ ok n → s ≡ as_str n
unfolding parse_flag as_str
as_str_of_parse_flag s mainnet h = ground (arith, bytes_eq_iff s (text "mainnet"))
as_str_of_parse_flag s hoodi h = ground (arith, bytes_eq_iff s (text "hoodi"))
as_str_of_parse_flag s sepolia h = ground (arith, bytes_eq_iff s (text "sepolia"))
as_str_of_parse_flag s holesky h = ground (arith, bytes_eq_iff s (text "holesky"))

-- `parse_flag` accepts the four network names and nothing else, and gives the network of the name.
pub parse_flag_iff : (s : Bytes) (n : Network) → (parse_flag s ≡ ok n) ↔ (s ≡ as_str n)
parse_flag_iff s n = (as_str_of_parse_flag s n, λ e. rw e (parse_flag-as_str n))

abbrev pub named : Bytes → Result NetworkError Network → Result NetworkError Params
named s (ok n) = ok (lookup n)
named s (err e) = err (unknown_network s)

-- `lookup_name` gives the parameters of the network that `parse_flag` reads from the same text,
-- and reports the text as an unknown network where `parse_flag` fails.
pub lookup_name-parse_flag : (s : Bytes) → lookup_name s ≡ named s (parse_flag s)
unfolding lookup_name parse_flag
lookup_name-parse_flag s = ground arith

chain_id_found : (n : Network) → lookup_by_chain_id (lookup n).chain_id ≡ ok (lookup n)
unfolding lookup_by_chain_id lookup
chain_id_found mainnet = refl
chain_id_found hoodi = refl
chain_id_found sepolia = refl
chain_id_found holesky = refl

loop_sound :
    (ns : List Network) (c : ℕ) (p : Params)
    → lookup_chain_loop ns c ≡ ok p
    → (n : Network) × (p ≡ lookup n) × (c ≡ (lookup n).chain_id)
unfolding lookup_chain_loop
loop_sound [] c p h = cc
loop_sound (n ∷ ns) c p h = elim (Bool-cases ((lookup n).chain_id == c)) [
  | inl found ↦ (n, ground arith, ground arith)
  | inr other ↦ loop_sound ns c p (ground arith)
]

-- A chain ID is found exactly if it is the chain ID of a network, and what is found are the
-- parameters of that network.
pub lookup_by_chain_id_iff :
    (c : ℕ) (p : Params)
    → (lookup_by_chain_id c ≡ ok p) ↔ ((n : Network) × (p ≡ lookup n) × (c ≡ (lookup n).chain_id))
unfolding lookup_by_chain_id
lookup_by_chain_id_iff c p =
    (loop_sound all_networks c p, λ (n, e, h). rw (e, h) (chain_id_found n))

-- The literal of every network's deposit contract is 20 bytes, so no literal panics, and its fork
-- version is 4 bytes.
pub lookup_lengths :
    (n : Network)
    → (length (lookup n).deposit_contract_address ≡ 20)
      × All IsByte (lookup n).deposit_contract_address
      × (length (lookup n).genesis_fork_version ≡ 4)
      × All IsByte (lookup n).genesis_fork_version
unfolding lookup
lookup_lengths mainnet = (refl, omega arith, refl, omega arith)
lookup_lengths hoodi = (refl, omega arith, refl, omega arith)
lookup_lengths sepolia = (refl, omega arith, refl, omega arith)
lookup_lengths holesky = (refl, omega arith, refl, omega arith)
