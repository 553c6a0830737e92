-- ===== src/Core/Deposit/Generate/Batch.antt =====
-- The whole batch of `generate`: all entries or none.
use mathlib.Core.List.{append_assoc, append-nil}
use native.Mathlib.Decide.{dec_lt}
use eth_utils.Prelude.{
  ℕ, suc, ◌+◌, ◌≤◌, ◌<◌, ◌≡◌, refl, ap, sym, ◌∙◌, ◌↔◌, Bool, true, false, List, [], ◌∷◌, ◌++◌, ok,
  length, All, arith, >>=-eq-ok,
}
use eth_utils.Prelude.Bytes.{Bytes, bytes_eq, bytes_eq_iff}
use eth_utils.Hex.{Hex}
use eth_utils.Core.Network.{Network, mainnet, hoodi, sepolia, holesky}
use eth_utils.Core.Deposit.Types.{Signer, Verifier, Request, Entry}
use eth_utils.Core.Deposit.Generate.{
  Generator, same_network, make_entry, generate_one, generate_loop, generate,
}
use eth_utils.Core.Deposit.Generate.Sound.{
  IsEntryFor, AreEntriesFor, make_entry_sound, make_entry_complete,
}

same_network→eq : (a b : Network) → same_network a b ≡ true → a ≡ b
unfolding same_network
same_network→eq a b h = ground arith

same_network_refl : (a : Network) → same_network a a ≡ true
unfolding same_network
same_network_refl mainnet = refl
same_network_refl hoodi = refl
same_network_refl sepolia = refl
same_network_refl holesky = refl

-- Not cancelled now and not later.
never_cancelled :
    (cancel : ℕ → Bool) (i n : ℕ)
    → cancel i ≡ false
    → ((j : ℕ) → i + 1 ≤ j → j < i + 1 + n → cancel j ≡ false)
    → (j : ℕ) → i ≤ j
    → j < i + suc n
    → cancel j ≡ false
never_cancelled cancel i n now later j p q = elim (dec_lt i j) [
  | yes h ↦ later j (omega arith) (omega arith)
  | no h ↦ let here : j ≡ i = omega arith in rw here now
]

module _ {E : Type 0} (sha256 : Bytes → Bytes) (hex : Hex E) (signer : Signer) (verifier : Verifier)
    (g : Generator) (req : Request) (sizes : (r s : Bytes) → signer.sign r ≡ ok s → length s ≡ 96)
    (cancel : ℕ → Bool) (held : Bytes) (known : signer.public_key ≡ ok held) where
  one_inversion :
      (i : ℕ) (pk : Bytes) (e : Entry)
      → generate_one sha256 hex signer verifier g req cancel held i pk ≡ ok e
      → (cancel i ≡ false)
        × (bytes_eq held pk ≡ true)
        × (make_entry sha256 hex signer verifier g req i pk ≡ ok e)
  unfolding generate_one
  one_inversion i pk e h = ground arith

  one_sound :
      (i : ℕ) (pk : Bytes) (e : Entry)
      → length pk ≡ 48
      → generate_one sha256 hex signer verifier g req cancel held i pk ≡ ok e
      → (cancel i ≡ false) × IsEntryFor sha256 signer verifier g req pk e
  one_sound i pk e h made =
      let (go, same, entry) = one_inversion i pk e made in
      let key = (bytes_eq_iff held pk).0 same in
      (
        go,
        make_entry_sound sha256 hex signer verifier g req sizes i pk e (known ∙ ap ok key) h entry,
      )

  one_complete :
      (i : ℕ) (pk : Bytes) (e : Entry)
      → length pk ≡ 48
      → cancel i ≡ false
      → IsEntryFor sha256 signer verifier g req pk e
      → generate_one sha256 hex signer verifier g req cancel held i pk ≡ ok e
  unfolding generate_one
  one_complete i pk e h go w =
      let key : held ≡ pk = ground (arith, w.key) in
      rw (go, (bytes_eq_iff held pk).1 key)
        (make_entry_complete sha256 hex signer verifier g req sizes i pk e h w)

  loop_sound :
      (i : ℕ) (pks : List Bytes) (done es : List Entry)
      → All (λ pk. length pk ≡ 48) pks
      → generate_loop sha256 hex signer verifier g req cancel held i pks done ≡ ok es
      → (rest : List Entry) × (es ≡ done ++ rest)
        × ((j : ℕ) → i ≤ j → j < i + length pks → cancel j ≡ false)
        × AreEntriesFor sha256 signer verifier g req pks rest
  unfolding generate_loop
  loop_sound i [] done es h made =
      let end : es ≡ done = cc in
      ([], end ∙ sym (append-nil done), λ j p q. absurd (omega arith), tt)
  loop_sound i (pk ∷ pks) done es (hk, h) made =
      let (e, one, more) = >>=-eq-ok _ _ made in
      let (go, w) = one_sound i pk e hk one in
      let (rest, joined, gos, ws) = loop_sound (i + 1) pks (done ++ (e ∷ [])) es h more in
      (
        e ∷ rest,
        joined ∙ append_assoc done (e ∷ []) rest,
        never_cancelled cancel i (length pks) go gos,
        (w, ws),
      )

  loop_complete :
      (i : ℕ) (pks : List Bytes) (done rest : List Entry)
      → All (λ pk. length pk ≡ 48) pks
      → ((j : ℕ) → i ≤ j → j < i + length pks → cancel j ≡ false)
      → AreEntriesFor sha256 signer verifier g req pks rest
      → generate_loop sha256 hex signer verifier g req cancel held i pks done ≡ ok (done ++ rest)
  unfolding generate_loop
  loop_complete i [] done [] h go w = ap ok (sym (append-nil done))
  loop_complete i [] done (e ∷ es) h go w = absurd w
  loop_complete i (pk ∷ pks) done [] h go w = absurd w
  loop_complete i (pk ∷ pks) done (e ∷ es) (hk, h) go (we, w) =
      rw (one_complete i pk e hk (go i (omega arith) (omega arith)) we) (
        loop_complete (i + 1) pks (done ++ (e ∷ [])) es h
          (λ j p q. go j (omega arith) (omega arith)) w
        ∙ ap ok (append_assoc done (e ∷ []) es))

  generate_inversion :
      (es : List Entry)
      → generate sha256 hex signer verifier g req cancel ≡ ok es
      → (same_network req.network g.params.name ≡ true)
        × (generate_loop sha256 hex signer verifier g req cancel held 0 req.pubkeys [] ≡ ok es)
  unfolding generate
  generate_inversion es h = ground arith

  generate_enters :
      same_network req.network g.params.name ≡ true
      → generate sha256 hex signer verifier g req cancel
        ≡ generate_loop sha256 hex signer verifier g req cancel held 0 req.pubkeys []
  unfolding generate
  generate_enters h = simp (h, known)

  -- For a request of 48-byte keys and a signer that knows its key and makes 96-byte signatures:
  -- `generate` returns a list of entries exactly if the request names the generator's network, no
  -- round was cancelled, and the entries are those of the requested keys, one for each in order,
  -- each for the key of the signer, with a signature of the message that the verifier accepted and
  -- with the two roots of the specification.
  pub generate_iff :
      (es : List Entry)
      → All (λ pk. length pk ≡ 48) req.pubkeys
      → (generate sha256 hex signer verifier g req cancel ≡ ok es) ↔ (
          (req.network ≡ g.params.name)
          × ((j : ℕ) → j < length req.pubkeys → cancel j ≡ false)
          × AreEntriesFor sha256 signer verifier g req req.pubkeys es)
  generate_iff es h = (
    λ made.
        let (net, loop) = generate_inversion es made in
        let (rest, joined, gos, ws) = loop_sound 0 req.pubkeys [] es h loop in
        (same_network→eq _ _ net, λ j p. gos j (omega arith) (omega arith), rw joined ws),
    λ (net, gos, ws).
        generate_enters
          (ap (λ n. same_network n g.params.name) net ∙ same_network_refl g.params.name)
        ∙ loop_complete 0 req.pubkeys [] es h (λ j p q. gos j (omega arith)) ws,
  )
