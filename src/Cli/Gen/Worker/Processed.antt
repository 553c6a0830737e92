-- ===== src/Cli/Gen/Worker/Processed.antt =====
-- Where the entry that a worker thread returns for a public key comes from.
use eth_utils.Prelude.{
  ℕ, ◌≡◌, ap, ◌∙◌, inl, inr, Bool, some, List, [], ◌∷◌, ok, ok-injective, err-ne-ok, ◌>>=◌, map_err,
  Result-cases, Option-cases,
}
use eth_utils.Prelude.Bytes.{Bytes}
use eth_utils.Core.Deposit.{Signer, Entry}
use eth_utils.Core.Deposit.Generate.{Generator, new, generate}
use eth_utils.Keystore.Errors.{fails}
use eth_utils.Keystore.Loader.{Key, load}
use eth_utils.Keystore.Scan.{lookup}
use eth_utils.Cli.Errors.{AppError}
use eth_utils.Cli.Gen.Worker.{
  Worker, request, process_pubkey, require_path, require_generator, first_entry,
}

first_entry-eq-ok :
    {E : Type 0}
    → (entries : List Entry) (entry : Entry) → first_entry {E = E} entries ≡ ok entry
    → (rest : List Entry) × (entries ≡ entry ∷ rest)
unfolding first_entry
first_entry-eq-ok [] entry h = absurd (err-ne-ok h)
first_entry-eq-ok (e ∷ rest) entry h = (rest, ap (λ x. x ∷ rest) (ok-injective h))

module _ {F S V : Type 0} (w : Worker F S V) (cancel : ℕ → Bool) where
  pub record IsProcessed (pk : Bytes) (entry : Entry) : Type 0 where
    pub path : Bytes
    pub key : Key
    pub signer : Signer
    pub generator : Generator
    pub rest : List Entry
    pub found : lookup w.to_lowercase (w.hex.encode pk) w.index ≡ some path
    pub loaded : load w.hex w.ciphers w.json w.to_lowercase path (w.read path) w.passphrase ≡ ok key
    pub signs : w.new_signer key.secret ≡ ok signer
    pub made : new w.sha256 w.hex w.params ≡ some generator
    pub generated :
        generate w.sha256 w.hex signer w.verifier generator (request w cancel pk) cancel
        ≡ ok (entry ∷ rest)

  -- A run that returns an entry went through all its steps.
  pub process_pubkey-IsProcessed :
      (pk : Bytes) (entry : Entry) → process_pubkey w cancel pk ≡ ok entry → IsProcessed pk entry
  unfolding process_pubkey require_path require_generator
  process_pubkey-IsProcessed pk entry h =
      elim (Option-cases (lookup w.to_lowercase (w.hex.encode pk) w.index)) [
        | inl absent ↦ absurd (err-ne-ok (rw absent at h))
        | inr (path, found) ↦
            elim (Result-cases
              (load w.hex w.ciphers w.json w.to_lowercase path (w.read path) w.passphrase)) [
                | inr (e, bad) ↦ absurd (err-ne-ok (rw (found, bad) at h))
                | inl (key, loaded) ↦ elim (Result-cases (w.new_signer key.secret)) [
                  | inr (e, bad) ↦ absurd (err-ne-ok (rw (found, loaded, bad) at h))
                  | inl (signer, signs) ↦ elim (Option-cases (new w.sha256 w.hex w.params)) [
                    | inl bad ↦ absurd (err-ne-ok (rw (found, loaded, signs, bad) at h))
                    | inr (g, made) ↦
                        with_generator path key signer g found loaded signs made
                          (rw (found, loaded, signs, made) at h)
                  ]
                ]
              ]
      ]
    where
      with_generator :
          (path : Bytes) (key : Key) (signer : Signer) (g : Generator)
          → lookup w.to_lowercase (w.hex.encode pk) w.index ≡ some path
          → load w.hex w.ciphers w.json w.to_lowercase path (w.read path) w.passphrase ≡ ok key
          → w.new_signer key.secret ≡ ok signer
          → new w.sha256 w.hex w.params ≡ some g
          → (map_err
                (λ e. fails (AppError.deposit e))
                (generate w.sha256 w.hex signer w.verifier g (request w cancel pk) cancel)
              >>= first_entry {E = AppError F S})
            ≡ ok entry
          → IsProcessed pk entry
      with_generator path key signer g found loaded signs made last =
          elim (Result-cases
            (generate w.sha256 w.hex signer w.verifier g (request w cancel pk) cancel)) [
              | inr (e, bad) ↦ absurd (err-ne-ok (rw bad at last))
              | inl (entries, done) ↦
                  let (rest, is) = first_entry-eq-ok entries entry (rw done at last) in
                  record {
                    path = path;
                    key = key;
                    signer = signer;
                    generator = g;
                    rest = rest;
                    found = found;
                    loaded = loaded;
                    signs = signs;
                    made = made;
                    generated = done ∙ ap ok is;
                  }
            ]
