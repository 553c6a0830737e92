-- ===== src/Runs/Data.antt =====
-- The inputs of the runs.
use eth_utils.Prelude.{
  ℕ, zero, suc, ◌≡◌, refl, ap, List, [], ◌∷◌, ◌++◌, map, Result, ok, err, ok-injective, length,
  take, drop, replicate, take-append, drop-append, true, All-append, All-replicate, arith,
}
use eth_utils.Prelude.Bytes.{Bytes, IsByte, text, digits_be, value_be, length-digits_be}
use eth_utils.Core.Network.{lookup, hoodi}
use eth_utils.Core.Deposit.{Entry, IsSizedEntry, Signer, Verifier, Request}
use eth_utils.Core.Deposit.Json.{JsonEntryIn}
use eth_utils.Core.Deposit.Generate.{Generator}
use eth_utils.Core.Output.{JsonEntryOut, as_read, Serde}

-- The last 32 bytes of the number that the input stands for.
abbrev pub last_word : Bytes → Bytes
last_word x = digits_be 256 32 (value_be 256 0 x)

pub length-last_word : (x : Bytes) → length (last_word x) ≡ 32
length-last_word x = length-digits_be 256 32 (value_be 256 0 x)

unfoldable pub put : Bytes → Bytes → Bytes
put b rest = length b ∷ (b ++ rest)

unfoldable pub get : Bytes → Bytes × Bytes
get [] = ([], [])
get (n ∷ s) = (take n s, drop n s)

get-put : (b rest : Bytes) → get (put b rest) ≡ (b, rest)
unfolding get put
get-put b rest = rw (take-append (length b) b rest refl, drop-append (length b) b rest refl)

unfoldable pub put_object : JsonEntryOut → Bytes → Bytes
put_object o rest = put o.pubkey (
    put o.withdrawal_credentials (
      put (o.amount ∷ []) (
        put o.signature (
          put o.deposit_message_root (
            put o.deposit_data_root
              (put o.fork_version (put o.network_name (put o.deposit_cli_version rest))))))))

abbrev pub first_number : Bytes → ℕ
first_number [] = 0
first_number (n ∷ s) = n

unfoldable pub get_object : Bytes → JsonEntryIn × Bytes
get_object s =
    let (pubkey, s1) = get s in
    let (credentials, s2) = get s1 in
    let (amount, s3) = get s2 in
    let (signature, s4) = get s3 in
    let (message_root, s5) = get s4 in
    let (data_root, s6) = get s5 in
    let (fork_version, s7) = get s6 in
    let (network_name, s8) = get s7 in
    let (version, s9) = get s8 in
    (
      record {
        pubkey = pubkey;
        withdrawal_credentials = credentials;
        amount = first_number amount;
        signature = signature;
        deposit_message_root = message_root;
        deposit_data_root = data_root;
        fork_version = fork_version;
        network_name = network_name;
        deposit_cli_version = version;
      },
      s9,
    )

get_object-put_object :
    (o : JsonEntryOut) (rest : Bytes) → get_object (put_object o rest) ≡ (as_read o, rest)
unfolding get_object put_object
get_object-put_object o rest = simp get-put

abbrev pub put_objects : List JsonEntryOut → Bytes
put_objects [] = []
put_objects (o ∷ os) = put_object o (put_objects os)

abbrev pub get_objects : ℕ → Bytes → List JsonEntryIn
get_objects zero s = []
get_objects (suc n) s = let (o, rest) = get_object s in o ∷ get_objects n rest

get_objects-put_objects :
    (os : List JsonEntryOut) → get_objects (length os) (put_objects os) ≡ map as_read os
get_objects-put_objects [] = refl
get_objects-put_objects (o ∷ os) =
    rw (get_object-put_object o (put_objects os), get_objects-put_objects os)

abbrev pub from_counted : Bytes → Result Bytes (List JsonEntryIn)
from_counted [] = err (text "EOF while parsing a value")
from_counted (n ∷ s) = ok (get_objects n s)

pub from_counted-to_counted :
    (outs : List JsonEntryOut) (json : Bytes)
    → ◌≡◌ {A = Result Bytes Bytes} (ok (length outs ∷ put_objects outs)) (ok json)
    → from_counted json ≡ ok (map as_read outs)
from_counted-to_counted outs json e = rw (← ok-injective e) (ap ok (get_objects-put_objects outs))

abbrev pub counted : Serde
counted = record {
  to_vec = λ outs. ok (length outs ∷ put_objects outs);
  from_slice = from_counted;
  from_slice-to_vec = from_counted-to_counted;
}

abbrev pub key : Bytes
key = replicate 48 5

abbrev pub signature : Bytes
signature = replicate 96 7

abbrev pub credentials : Bytes
credentials = 1 ∷ (replicate 11 0 ++ replicate 20 9)

abbrev pub signs : Signer
signs = record { sign = λ root. ok signature; public_key = ok key }

abbrev pub accepts : Verifier
accepts = record { verify = λ pk root sig. ok true }

abbrev pub generator : Generator
generator = record { domain = replicate 32 3; params = lookup hoodi }

abbrev pub request : Request
request = record {
  network = hoodi;
  pubkeys = key ∷ [];
  withdrawal_credentials = credentials;
  amount_gwei = 32_000_000_000;
  deposit_cli_version = text "2.7.0";
}

abbrev pub deposit : Entry
deposit = record {
  pubkey = key;
  withdrawal_credentials = credentials;
  amount = 32_000_000_000;
  signature = signature;
  deposit_message_root = replicate 32 1;
  deposit_data_root = replicate 32 2;
  fork_version = 0x10 ∷ 0x00 ∷ 0x09 ∷ 0x10 ∷ [];
  network_name = text "hoodi";
  deposit_cli_version = text "2.7.0";
}

pub sized_deposit : IsSizedEntry deposit
sized_deposit = record {
  pubkey_size = refl;
  credentials_size = refl;
  signature_size = refl;
  message_root_size = refl;
  data_root_size = refl;
  fork_version_size = refl;
  pubkey_bytes = All-replicate IsByte 48 5 (omega arith);
  credentials_bytes = (
    omega arith,
    All-append IsByte (replicate 11 0) (replicate 20 9) (All-replicate IsByte 11 0 (omega arith))
        (All-replicate IsByte 20 9 (omega arith)),
  );
  signature_bytes = All-replicate IsByte 96 7 (omega arith);
  message_root_bytes = All-replicate IsByte 32 1 (omega arith);
  data_root_bytes = All-replicate IsByte 32 2 (omega arith);
  fork_version_bytes = (omega arith, (omega arith, (omega arith, (omega arith, tt))));
}
