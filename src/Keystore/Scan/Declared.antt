-- ===== src/Keystore/Scan/Declared.antt =====
-- Which listed files declare a key, and with what they are inserted into the index.
use eth_utils.Prelude.{
  ◌≡◌, ◌≢◌, refl, sym, ap, ◌∙◌, inl, inr, Bool, true, false, Option, none, some, Option-cases, [],
  ◌++◌, Bool-cases,
}
use mathlib.Core.Option.{some-injective}
use eth_utils.Prelude.Bytes.{Bytes, text}
use eth_utils.Keystore.Loader.{normalize_pubkey}
use eth_utils.Keystore.Scan.{DirEntry, ends_with, is_candidate, non_empty, indexed}
use eth_utils.Keystore.Scan.Texts.{
  IsBare, bare_of, bare_of-IsBare, bare_of_unique, ends_with-append, ends_with-eq-true,
  non_empty-some, non_empty-eq-some,
}

module _ (to_lowercase : Bytes → Bytes) where
  unfoldable pub key_of : Bytes → Bytes
  key_of pubkey = to_lowercase (bare_of pubkey)

  pub normalize_pubkey-key_of : (s : Bytes) → normalize_pubkey to_lowercase s ≡ key_of s
  unfolding normalize_pubkey key_of bare_of
  normalize_pubkey-key_of s = refl

module _ (to_lowercase : Bytes → Bytes) (pubkey_of : Bytes → Option Bytes) where
  -- A listed file declares a key: it is no directory, its name ends with `.json`, its content can be
  -- read and has a `pubkey` field, which is not empty and is the key up to a prefix `0x` of either and
  -- up to lowercase.
  pub record Declares (entry : DirEntry) (q : Bytes) : Type 0 where
    pub stem : Bytes
    pub raw : Bytes
    pub pubkey : Bytes
    pub bare : Bytes
    pub bare_q : Bytes
    pub file : entry.file_type ≡ some false
    pub named : entry.file_name ≡ stem ++ text ".json"
    pub content : entry.content ≡ some raw
    pub parsed : pubkey_of raw ≡ some pubkey
    pub filled : pubkey ≢ []
    pub left : IsBare pubkey bare
    pub left_q : IsBare q bare_q
    pub same : to_lowercase bare ≡ to_lowercase bare_q

  declared_key :
      (entry : DirEntry) (q : Bytes) (d : Declares entry q)
      → key_of to_lowercase d.pubkey ≡ key_of to_lowercase q
  unfolding key_of
  declared_key entry q d =
      ap to_lowercase (sym (bare_of_unique d.pubkey d.bare d.left))
      ∙ d.same
      ∙ ap to_lowercase (bare_of_unique q d.bare_q d.left_q)

  -- An entry that declares a key is inserted with it.
  pub Declares-indexed :
      (entry : DirEntry) (q : Bytes)
      → Declares entry q
      → indexed to_lowercase pubkey_of (some entry) ≡ some (key_of to_lowercase q, entry.path)
  unfolding indexed is_candidate
  Declares-indexed entry q d = rw (
    d.file,
    d.named,
    ends_with-append d.stem (text ".json"),
    d.content,
    d.parsed,
    non_empty-some d.pubkey d.filled,
    normalize_pubkey-key_of to_lowercase d.pubkey,
    declared_key entry q d,
  )

  candidate :
      (file_type : Option Bool) (name : Bytes)
      → is_candidate file_type name ≡ true
      → (file_type ≡ some false) × (ends_with name (text ".json") ≡ true)
  unfolding is_candidate
  candidate none name h = absurd (cc h)
  candidate (some true) name h = absurd (cc h)
  candidate (some false) name h = (refl, h)

  -- What an entry that is inserted was read from.
  pub record Inserted (entry : DirEntry) (key path : Bytes) : Type 0 where
    pub raw : Bytes
    pub pubkey : Bytes
    pub kind : is_candidate entry.file_type entry.file_name ≡ true
    pub content : entry.content ≡ some raw
    pub parsed : pubkey_of raw ≡ some pubkey
    pub filled : pubkey ≢ []
    pub at : entry.path ≡ path
    pub under : key_of to_lowercase pubkey ≡ key

  pub indexed-Inserted :
      (entry : DirEntry) (key path : Bytes)
      → indexed to_lowercase pubkey_of (some entry) ≡ some (key, path)
      → Inserted entry key path
  unfolding indexed
  indexed-Inserted entry key path h =
      elim (Bool-cases (is_candidate entry.file_type entry.file_name)) [
        | inr bad ↦ absurd (cc (rw bad at h))
        | inl kind ↦ elim (Option-cases entry.content) [
          | inl bad ↦ absurd (cc (rw (kind, bad) at h))
          | inr (raw, content) ↦ elim (Option-cases (pubkey_of raw)) [
            | inl bad ↦ absurd (cc (rw (kind, content, bad) at h))
            | inr (pubkey, parsed) ↦ elim (Option-cases (non_empty pubkey)) [
              | inl bad ↦ absurd (cc (rw (kind, content, parsed, bad) at h))
              | inr (again, some_text) ↦
                  let (is, filled) = non_empty-eq-some pubkey again some_text in
                  let pair : (normalize_pubkey to_lowercase again, entry.path) ≡ (key, path) =
                    some-injective _ _ (rw (kind, content, parsed, some_text) at h) in
                  record {
                    raw = raw;
                    pubkey = pubkey;
                    kind = kind;
                    content = content;
                    parsed = parsed;
                    filled = filled;
                    at = ap (λ t. t.1) pair;
                    under =
                        ap (key_of to_lowercase) is
                        ∙ sym (normalize_pubkey-key_of to_lowercase again)
                        ∙ ap (λ t. t.0) pair;
                  }
            ]
          ]
        ]
      ]

  pub Inserted-Declares :
      (entry : DirEntry) (q path : Bytes)
      → Inserted entry (key_of to_lowercase q) path
      → Declares entry q
  unfolding key_of
  Inserted-Declares entry q path i =
      let (file, ends) = candidate entry.file_type entry.file_name i.kind in
      let (stem, named) = ends_with-eq-true entry.file_name (text ".json") ends in
      record {
        stem = stem;
        raw = i.raw;
        pubkey = i.pubkey;
        bare = bare_of i.pubkey;
        bare_q = bare_of q;
        file = file;
        named = named;
        content = i.content;
        parsed = i.parsed;
        filled = i.filled;
        left = bare_of-IsBare i.pubkey;
        left_q = bare_of-IsBare q;
        same = i.under;
      }
