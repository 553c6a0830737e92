-- ===== src/Runs/Workers.antt =====
-- The theorem on the worker threads at a concrete keystore.
use eth_utils.Prelude.{
  ◌≡◌, refl, sym, ◌∙◌, ap, false, some, [], ◌∷◌, ok, ok-injective, length, replicate, ◌++◌, take,
}
use eth_utils.Prelude.Bytes.{Bytes, text, bytes_eq_refl}
use eth_utils.Hex.Reference.{reference}
use eth_utils.Core.Network.{hoodi, domain_deposit, zero_genesis_validators_root}
use eth_utils.Core.Network
use eth_utils.Core.Ssz.Roots.{compute_domain_lem, pair}
use eth_utils.Core.Deposit.{Entry}
use eth_utils.Core.Deposit.Generate.{Generator, new, generate}
use eth_utils.Core.Deposit.Generate.Sound.{entry_for}
use eth_utils.Core.Deposit.Generate.Batch.{generate_iff}
use eth_utils.Keystore.Loader.{load, normalize_pubkey}
use eth_utils.Keystore.RoundTrip.{load-encrypt}
use eth_utils.Keystore.Scan.{get, lookup}
use eth_utils.Cli.Gen.Worker.{
  Worker, process_pubkey, require_path, require_generator, first_entry, request,
}
use eth_utils.Cli.Gen.Worker.Deposit.{IsDepositOf, process_pubkey-IsDepositOf}
use eth_utils.Core.Deposit.{BlsError, Signer}
use eth_utils.Runs.Data.{last_word, length-last_word, key, signature, credentials, signs, accepts}
use eth_utils.Runs.Instances.{ciphers, json}
use eth_utils.Keystore.Json.{CryptoOut}
use eth_utils.Runs.Keys.{keystore, input, encrypted, input-IsEncryptInput}

abbrev worker : Worker (Unit {0}) (Unit {0}) CryptoOut
worker = record {
  network = hoodi;
  withdrawal_credentials = credentials;
  keystore_dir = text "keys";
  params = eth_utils.Core.Network.lookup hoodi;
  index = (normalize_pubkey (λ s. s) (reference.encode key), text "keys/a.json") ∷ [];
  read = λ path. ok keystore;
  passphrase = ok (text "correct horse");
  new_signer = λ secret. ok signs;
  verifier = accepts;
  hex = reference;
  ciphers = ciphers;
  json = json;
  sha256 = last_word;
  to_lowercase = λ s. s;
}

found : lookup (λ s. s) (reference.encode key) worker.index ≡ some (text "keys/a.json")
unfolding lookup get
found = rw (bytes_eq_refl (normalize_pubkey (λ s. s) (reference.encode key))) refl

loaded :
    load {S = Unit {0}} reference ciphers json
      (λ s. s)
      (text "keys/a.json")
      (ok keystore)
      (ok (text "correct horse"))
    ≡ ok (record {
      secret = replicate 32 3;
      pubkey_hex = normalize_pubkey (λ s. s) (reference.encode (replicate 48 4));
    })
loaded =
    load-encrypt reference ciphers json (λ s. s) input keystore (text "keys/a.json")
      (text "correct horse") input-IsEncryptInput refl encrypted

abbrev made_by : Generator
made_by = record {
  domain =
      domain_deposit
      ++ take 28 (
          pair last_word (worker.params.genesis_fork_version ++ replicate 28 0)
            zero_genesis_validators_root);
  params = worker.params;
}

made : new last_word reference worker.params ≡ some made_by
unfolding new eth_utils.Core.Network.lookup
made =
    rw
      (compute_domain_lem last_word domain_deposit worker.params.genesis_fork_version
        zero_genesis_validators_root refl length-last_word)
      refl

abbrev entry : Entry
entry = entry_for last_word signs accepts made_by (request worker (λ i. false) key) key signature

generated :
    generate last_word reference signs accepts made_by
      (request worker (λ i. false) key)
      (λ i. false)
    ≡ ok (entry ∷ [])
unfolding eth_utils.Core.Network.lookup
generated =
    (generate_iff last_word reference signs accepts made_by (request worker (λ i. false) key)
        (λ r s h. ap length (sym (ok-injective h))) (λ i. false) key refl (entry ∷ []) (refl, tt)).1
      (
        refl,
        (λ j p. refl),
        (record { key = refl; signed = refl; verified = refl; content = refl }, tt),
      )

processed : process_pubkey worker (λ i. false) key ≡ ok entry
unfolding process_pubkey require_path require_generator first_entry
processed = rw (found, loaded, made, generated) refl

sizes :
    (secret root s : Bytes) (signer : Signer)
    → worker.new_signer secret ≡ ok signer
    → signer.sign root ≡ ok s
    → length s ≡ 96
sizes secret root s signer made signed =
    let is : signs ≡ signer = ok-injective {E = BlsError} made in
    ap length (sym (ok-injective {E = BlsError} (ap (λ (t : Signer). t.sign root) is ∙ signed)))

fork_size : length worker.params.genesis_fork_version ≡ 4
unfolding eth_utils.Core.Network.lookup
fork_size = refl

process_pubkey-IsDepositOf_example : IsDepositOf worker (λ i. false) key entry
process_pubkey-IsDepositOf_example =
    process_pubkey-IsDepositOf worker (λ i. false) key entry refl fork_size length-last_word sizes
      processed
