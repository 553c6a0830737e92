-- ===== src/Keystore/Scan/Last.antt =====
-- Which keystore the index of a directory leads to, in terms of the listed files alone.
use mathlib.Core.Path.{subst}
use eth_utils.Prelude.{
  ◌≡◌, ◌⊎◌, ◌↔◌, refl, sym, ap, ◌∙◌, inl, inr, Option, none, some, Option-cases, map, List, [], ◌∷◌,
  ok, All, Bool-cases,
}
use mathlib.Core.Option.{some-injective}
use eth_utils.Prelude.Bytes.{Bytes, bytes_eq, bytes_eq_iff, bytes_eq_refl, bytes_eq_false→ne}
use eth_utils.Keystore.Scan.{
  DirEntry, Index, indexed, scan_dir, lookup, last_path, or_else, lookup-scan_dir,
}
use eth_utils.Keystore.Scan.Declared.{
  Declares, key_of, normalize_pubkey-key_of, Declares-indexed, indexed-Inserted, Inserted-Declares,
}

module _ (to_lowercase : Bytes → Bytes) (pubkey_of : Bytes → Option Bytes) where
  -- An entry that could be listed declares a key, under a path.
  abbrev pub DeclaresAt : Bytes → Option DirEntry → Bytes → Type 0
  DeclaresAt q none path = ⊥
  DeclaresAt q (some entry) path = Declares to_lowercase pubkey_of entry q × (entry.path ≡ path)

  abbrev pub NoneDeclares : Bytes → List (Option DirEntry) → Type 0
  NoneDeclares q entries = All (λ o. (path : Bytes) → ¬ DeclaresAt q o path) entries

  -- The path is that of the last listed file that declares the key.
  abbrev pub IsLast : Bytes → List (Option DirEntry) → Bytes → Type 0
  IsLast q [] path = ⊥
  IsLast q (o ∷ rest) path = IsLast q rest path ⊎ (NoneDeclares q rest × DeclaresAt q o path)

  -- The last file as the code finds it, and that there is none.
  Outcome : Bytes → List (Option DirEntry) → Type 0
  Outcome q entries =
      ((path : Bytes) × (last_path (key_of to_lowercase q)
            (map (indexed to_lowercase pubkey_of) entries)
          ≡ some path)
        × IsLast q entries path)
      ⊎ ((last_path (key_of to_lowercase q) (map (indexed to_lowercase pubkey_of) entries) ≡ none)
          × NoneDeclares q entries)

  -- One entry: it declares the key and is inserted with it, or neither.
  Step : Bytes → Option DirEntry → Type 0
  Step q o =
      ((path : Bytes) × (indexed to_lowercase pubkey_of o ≡ some (key_of to_lowercase q, path))
        × DeclaresAt q o path)
      ⊎ (((rest : List (Option (Bytes × Bytes)))
            → last_path (key_of to_lowercase q) (indexed to_lowercase pubkey_of o ∷ rest)
              ≡ last_path (key_of to_lowercase q) rest)
          × ((path : Bytes) → ¬ DeclaresAt q o path))

  or_else-none : (a : Option Bytes) → or_else a none ≡ a
  or_else-none none = refl
  or_else-none (some x) = refl

  step : (q : Bytes) (o : Option DirEntry) → Step q o
  unfolding Step last_path indexed
  step q none = inr ((λ rest. refl), λ path d. d)
  step q (some entry) = elim (Option-cases (indexed to_lowercase pubkey_of (some entry))) [
    | inl skipped ↦ inr (
      (λ rest. rw skipped refl),
      λ path d. absurd (cc (skipped, Declares-indexed to_lowercase pubkey_of entry q d.0)),
    )
    | inr ((key, path), taken) ↦
        let i = indexed-Inserted to_lowercase pubkey_of entry key path taken in
        elim (Bool-cases (bytes_eq key (key_of to_lowercase q))) [
          | inl hit ↦
              let is = (bytes_eq_iff key (key_of to_lowercase q)).0 hit in
              inl (
                path,
                taken ∙ ap (λ k. some (k, path)) is,
                (Inserted-Declares to_lowercase pubkey_of entry q path (rw is at i), i.at),
              )
          | inr miss ↦ inr (
            (λ rest. rw (taken, miss) (or_else-none (last_path (key_of to_lowercase q) rest))),
            λ at d. bytes_eq_false→ne key (key_of to_lowercase q) miss (
                ap (λ t. t.0)
                  (some-injective _ _
                    (sym taken ∙ Declares-indexed to_lowercase pubkey_of entry q d.0))),
          )
        ]
  ]

  outcome : (q : Bytes) (entries : List (Option DirEntry)) → Outcome q entries
  unfolding Outcome Step last_path
  outcome q [] = inr (refl, tt)
  outcome q (o ∷ rest) = elim (step q o) [
    | inr (passes, no_one) ↦ elim (outcome q rest) [
      | inl (path, found, last) ↦ inl (path, passes _ ∙ found, inl last)
      | inr (nothing, others) ↦ inr (passes _ ∙ nothing, (no_one, others))
    ]
    | inl (path, taken, declares) ↦ elim (outcome q rest) [
      | inl (later, found, last) ↦ inl (later, rw (taken, found) refl, inl last)
      | inr (nothing, others) ↦ inl (
        path,
        rw (taken, nothing, bytes_eq_refl (key_of to_lowercase q)) refl,
        inr (others, declares),
      )
    ]
  ]

  same_path :
      (q : Bytes) (o : Option DirEntry) (a b : Bytes) → DeclaresAt q o a → DeclaresAt q o b → a ≡ b
  same_path q none a b c d = absurd c
  same_path q (some entry) a b (c, at_a) (d, at_b) = sym at_a ∙ at_b

  IsLast-NoneDeclares :
      (q : Bytes) (entries : List (Option DirEntry)) (path : Bytes)
      → IsLast q entries path
      → ¬ NoneDeclares q entries
  IsLast-NoneDeclares q [] path l nothing = l
  IsLast-NoneDeclares q (o ∷ rest) path (inl l) (no_one, others) =
      IsLast-NoneDeclares q rest path l others
  IsLast-NoneDeclares q (o ∷ rest) path (inr (later, d)) (no_one, others) = no_one path d

  IsLast-unique :
      (q : Bytes) (entries : List (Option DirEntry)) (a b : Bytes)
      → IsLast q entries a
      → IsLast q entries b
      → a ≡ b
  IsLast-unique q [] a b l m = absurd l
  IsLast-unique q (o ∷ rest) a b (inl l) (inl m) = IsLast-unique q rest a b l m
  IsLast-unique q (o ∷ rest) a b (inl l) (inr (later, d)) =
      absurd (IsLast-NoneDeclares q rest a l later)
  IsLast-unique q (o ∷ rest) a b (inr (later, d)) (inl m) =
      absurd (IsLast-NoneDeclares q rest b m later)
  IsLast-unique q (o ∷ rest) a b (inr (later, d)) (inr (later_b, e)) = same_path q o a b d e

  -- Looking a public key up in the index of a directory finds a path exactly if it is the path of the
  -- last listed file that declares the key, and finds nothing exactly if no listed file declares it.
  -- A file declares a key if it is no directory, its name ends with `.json`, its content can be read
  -- and has a `pubkey` field that is not empty and is the key up to a prefix `0x` of either and up to
  -- lowercase.
  pub lookup-IsLast_iff :
      {E : Type 0}
      → (entries : List (Option DirEntry)) (index : Index) (q path : Bytes)
      → scan_dir to_lowercase pubkey_of {E = E} (ok entries) ≡ ok index
      → ((lookup to_lowercase q index ≡ some path) ↔ IsLast q entries path)
        × ((lookup to_lowercase q index ≡ none) ↔ NoneDeclares q entries)
  unfolding Outcome
  lookup-IsLast_iff entries index q path h =
      let is : lookup to_lowercase q index
          ≡ last_path (key_of to_lowercase q) (map (indexed to_lowercase pubkey_of) entries) =
        lookup-scan_dir to_lowercase pubkey_of entries index q h
        ∙ ap (λ k. last_path k (map (indexed to_lowercase pubkey_of) entries))
            (normalize_pubkey-key_of to_lowercase q) in
      rw is (elim (outcome q entries) [
        | inl (later, found, last) ↦ (
          (
            (λ e. subst (λ x. IsLast q entries x) (some-injective _ _ (sym found ∙ e)) last),
            (λ l. found ∙ ap some (IsLast-unique q entries later path last l)),
          ),
          (
            (λ e. absurd (cc (found, e))),
            (λ nothing. absurd (IsLast-NoneDeclares q entries later last nothing)),
          ),
        )
        | inr (nothing, others) ↦ (
          (
            (λ e. absurd (cc (nothing, e))),
            (λ l. absurd (IsLast-NoneDeclares q entries path l others)),
          ),
          ((λ e. others), (λ n. nothing)),
        )
      ])
