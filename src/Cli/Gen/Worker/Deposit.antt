-- ===== src/Cli/Gen/Worker/Deposit.antt =====
-- The entry that a worker thread returns for a public key is the deposit of 32 ETH for that key.
use eth_utils.Prelude.{
  ℕ, ◌≡◌, refl, sym, ap, ◌∙◌, inl, inr, Bool, true, false, some, List, [], ◌∷◌, ◌++◌, ok, err-ne-ok,
  Result-cases, Bool-cases, length, take, replicate, arith,
}
use mathlib.Core.Option.{some-injective}
use eth_utils.Prelude.Bytes.{Bytes, text}
use eth_utils.Hex.{Hex}
use eth_utils.Core.Network.{as_str, domain_deposit, zero_genesis_validators_root}
use eth_utils.Core.Ssz.Roots.{pair, message_root, data_root, compute_domain_lem}
use eth_utils.Core.Deposit.{Signer, Verifier, Request, Entry}
use eth_utils.Core.Deposit.Generate.{Generator, new, generate, same_network}
use eth_utils.Core.Deposit.Generate.Batch.{generate_iff}
use eth_utils.Keystore.Loader.{Key, load}
use eth_utils.Keystore.Scan.{lookup}
use eth_utils.Cli.Gen.Worker.{Worker, request, process_pubkey}
use eth_utils.Cli.Gen.Worker.Processed.{process_pubkey-IsProcessed}

-- A `generate` that succeeds was given a signer that knows its key.
generate-held :
    {E : Type 0}
    → (sha256 : Bytes → Bytes) (hex : Hex E) (signer : Signer) (verifier : Verifier) (g : Generator)
      (req : Request) (cancel : ℕ → Bool) (es : List Entry)
    → generate sha256 hex signer verifier g req cancel ≡ ok es
    → (held : Bytes) × (signer.public_key ≡ ok held)
unfolding generate
generate-held sha256 hex signer verifier g req cancel es h =
    elim (Bool-cases (same_network req.network g.params.name)) [
      | inr other_network ↦ absurd (err-ne-ok (rw other_network at h))
      | inl net ↦ elim (Result-cases signer.public_key) [
        | inl known ↦ known
        | inr (e, bad) ↦ absurd (err-ne-ok (rw (net, bad) at h))
      ]
    ]

module _ {F S V : Type 0} (w : Worker F S V) (cancel : ℕ → Bool) where
  -- The domain of deposits of the consensus specification: the type 3 and 28 bytes of the hash of the
  -- fork version of the genesis, filled up to 32 bytes, and of 32 zero bytes.
  abbrev pub deposit_domain : Bytes
  deposit_domain =
      (3 ∷ 0 ∷ 0 ∷ 0 ∷ [])
      ++ take 28 (pair w.sha256 (w.params.genesis_fork_version ++ replicate 28 0) (replicate 32 0))

  -- The message of 32 ETH for a key and the credentials of the configuration, and its signing root.
  abbrev pub deposit_root : Bytes → Bytes
  deposit_root pk = message_root w.sha256 (record {
    pubkey = pk;
    withdrawal_credentials = w.withdrawal_credentials;
    amount = 32_000_000_000;
  })

  abbrev pub deposit_signing_root : Bytes → Bytes
  deposit_signing_root pk = pair w.sha256 (deposit_root pk) deposit_domain

  pub record IsDepositOf (pk : Bytes) (entry : Entry) : Type 0 where
    pub path : Bytes
    pub key : Key
    pub signer : Signer
    -- The keystore of the key, its secret, and a signer of the secret that has the same key.
    pub found : lookup w.to_lowercase (w.hex.encode pk) w.index ≡ some path
    pub loaded : load w.hex w.ciphers w.json w.to_lowercase path (w.read path) w.passphrase ≡ ok key
    pub signs : w.new_signer key.secret ≡ ok signer
    pub holds : signer.public_key ≡ ok pk
    -- The signature is the signer's, and the verifier accepted it.
    pub signed : signer.sign (deposit_signing_root pk) ≡ ok entry.signature
    pub verified : w.verifier.verify pk (deposit_signing_root pk) entry.signature ≡ ok true
    pub going : cancel 0 ≡ false
    pub network : w.network ≡ w.params.name
    pub content : entry ≡ record {
      pubkey = pk;
      withdrawal_credentials = w.withdrawal_credentials;
      amount = 32_000_000_000;
      signature = entry.signature;
      deposit_message_root = deposit_root pk;
      deposit_data_root = data_root w.sha256 (record {
        pubkey = pk;
        withdrawal_credentials = w.withdrawal_credentials;
        amount = 32_000_000_000;
        signature = entry.signature;
      });
      fork_version = w.params.genesis_fork_version;
      network_name = as_str w.params.name;
      deposit_cli_version = text "2.7.0";
    }

  made_generator : Generator
  made_generator = record { domain = deposit_domain; params = w.params }

  new-made_generator :
      length w.params.genesis_fork_version ≡ 4
      → ((x : Bytes) → length (w.sha256 x) ≡ 32)
      → new w.sha256 w.hex w.params ≡ some made_generator
  unfolding new made_generator
  new-made_generator fork digest =
      rw
        (compute_domain_lem w.sha256 domain_deposit w.params.genesis_fork_version
          zero_genesis_validators_root fork digest)
        refl

  -- For a 48-byte key, signers with 96-byte signatures, a fork version of 4 bytes and a hash of 32
  -- bytes: an entry that `process_pubkey` returns for a key is the deposit of 32 ETH for this key, with
  -- the credentials of the configuration, the roots of the specification and the names and versions
  -- of the network. The index leads to a keystore for the key; from its secret the signer was made,
  -- which has the key that was asked for; it signed the message in the domain of deposits, and the
  -- verifier accepted the signature. The token was not set, and the network is the configured one.
  pub process_pubkey-IsDepositOf :
      (pk : Bytes) (entry : Entry)
      → length pk ≡ 48
      → length w.params.genesis_fork_version ≡ 4
      → ((x : Bytes) → length (w.sha256 x) ≡ 32)
      → ((secret root signature : Bytes) (signer : Signer)
          → w.new_signer secret ≡ ok signer
          → signer.sign root ≡ ok signature
          → length signature ≡ 96)
      → process_pubkey w cancel pk ≡ ok entry
      → IsDepositOf pk entry
  unfolding made_generator
  process_pubkey-IsDepositOf pk entry size fork digest sizes h =
      let p = process_pubkey-IsProcessed w cancel pk entry h in
      let is : p.generator ≡ made_generator =
        some-injective _ _ (sym p.made ∙ new-made_generator fork digest) in
      let generated : generate w.sha256 w.hex p.signer w.verifier made_generator
            (request w cancel pk) cancel
          ≡ ok (entry ∷ p.rest) =
        ap (λ g. generate w.sha256 w.hex p.signer w.verifier g (request w cancel pk) cancel)
          (sym is)
        ∙ p.generated in
      let (held, known) =
        generate-held w.sha256 w.hex p.signer w.verifier made_generator (request w cancel pk) cancel
          (entry ∷ p.rest) generated in
      let (net, going, (made, others)) =
        (generate_iff w.sha256 w.hex p.signer w.verifier made_generator (request w cancel pk)
            (λ root s signed. sizes p.key.secret root s p.signer p.signs signed) cancel held known
            (entry ∷ p.rest) (size, tt)).0
          generated in
      record {
        path = p.path;
        key = p.key;
        signer = p.signer;
        found = p.found;
        loaded = p.loaded;
        signs = p.signs;
        holds = made.key;
        signed = made.signed;
        verified = made.verified;
        going = going 0 (omega arith);
        network = net;
        content = made.content;
      }
