-- ===== src/Keystore/Scan.antt =====
-- The index of a directory of keystores (crates/ethernal-keystore/src/scandir.rs). The hash map is an
-- association list; the entries of the directory, in the order in which the system lists them, and
-- the parse of the `pubkey` field are parameters.
pub mod Texts
pub mod Declared
pub mod Last
use eth_utils.Prelude.{
  ◌-◌, ◌≡◌, refl, sym, ap, ◌∙◌, inl, inr, Bool, true, false, Option, none, some, Option-cases, map,
  ok-injective, List, [], ◌∷◌, Result, ok, err, and_then, length, drop, leb, Bool-cases,
  if◌then◌else◌,
}
use eth_utils.Prelude.Bytes.{Bytes, text, bytes_eq, bytes_eq_iff, ne→bytes_eq_false}
use eth_utils.Keystore.Loader.{normalize_pubkey}

-- A listed entry; `file_type` and `content` are none if asking for them fails.
pub record DirEntry : Type 0 where
  pub file_type : Option Bool
  pub file_name : Bytes
  pub path : Bytes
  pub content : Option Bytes

abbrev pub Index : Type 0
Index = List (Bytes × Bytes)

-- `HashMap::insert`
unfoldable pub insert : Bytes → Bytes → Index → Index
insert key path [] = (key, path) ∷ []
insert key path ((k, p) ∷ rest) =
    let more = insert key path rest in if bytes_eq k key then (key, path) ∷ rest else (k, p) ∷ more

-- `HashMap::get`
unfoldable pub get : Bytes → Index → Option Bytes
get key [] = none
get key ((k, p) ∷ rest) = let more = get key rest in if bytes_eq k key then some p else more

-- `s.ends_with(suffix)`
unfoldable pub ends_with : Bytes → Bytes → Bool
ends_with s suffix =
    if leb (length suffix) (length s)
    then bytes_eq (drop (length s - length suffix) s) suffix
    else false

unfoldable pub is_candidate : Option Bool → Bytes → Bool
unfolding ends_with
is_candidate none name = false
is_candidate (some true) name = false
is_candidate (some false) name = ends_with name (text ".json")

unfoldable pub non_empty : Bytes → Option Bytes
non_empty [] = none
non_empty (b ∷ bs) = some (b ∷ bs)

module _ (to_lowercase : Bytes → Bytes) (pubkey_of : Bytes → Option Bytes) where
  -- The key and the path that an entry of the directory is inserted with, if it is not skipped.
  unfoldable pub indexed : Option DirEntry → Option (Bytes × Bytes)
  unfolding is_candidate non_empty
  indexed none = none
  indexed (some entry) =
      if is_candidate entry.file_type entry.file_name
      then and_then (and_then (and_then entry.content pubkey_of) non_empty)
          (λ pubkey. some (normalize_pubkey to_lowercase pubkey, entry.path))
      else none

  unfoldable pub insert_entry : Option (Bytes × Bytes) → Index → Index
  unfolding insert
  insert_entry none index = index
  insert_entry (some (key, path)) index = insert key path index

  unfoldable pub scan_entries : Index → List (Option DirEntry) → Index
  unfolding insert_entry indexed
  scan_entries index [] = index
  scan_entries index (entry ∷ rest) = scan_entries (insert_entry (indexed entry) index) rest

  unfoldable pub scan_dir : {E : Type 0} → Result E (List (Option DirEntry)) → Result E Index
  unfolding scan_entries
  scan_dir (err e) = err e
  scan_dir (ok entries) = ok (scan_entries [] entries)

unfoldable pub lookup : (Bytes → Bytes) → Bytes → Index → Option Bytes
unfolding get
lookup to_lowercase pubkey_hex index = get (normalize_pubkey to_lowercase pubkey_hex) index

again :
    (b : Bool) (p x : Bytes) (y : Option Bytes)
    → (if b then some x else y) ≡ (if b then some x else if b then some p else y)
again true p x y = refl
again false p x y = refl

get-insert :
    (key path q : Bytes) (index : Index)
    → get q (insert key path index) ≡ (if bytes_eq key q then some path else get q index)
unfolding get insert
get-insert key path q [] = refl
get-insert key path q ((k, p) ∷ rest) = elim (Bool-cases (bytes_eq k key)) [
  | inr new ↦ elim (Bool-cases (bytes_eq k q)) [
    | inr miss ↦ rw (new, miss) (get-insert key path q rest)
    | inl hit ↦
        let other : bytes_eq key q ≡ false =
          rw (sym ((bytes_eq_iff k q).0 hit))
            (ne→bytes_eq_false key k (λ e. cc (new, (bytes_eq_iff k key).1 (sym e)))) in
        rw (new, hit, other) refl
  ]
  | inl same ↦ rw (same, (bytes_eq_iff k key).0 same) (again (bytes_eq key q) p path (get q rest))
]

abbrev pub or_else : Option Bytes → Option Bytes → Option Bytes
or_else none y = y
or_else (some x) y = some x

-- The reference: the path of the last entry that declares a key.
unfoldable pub last_path : Bytes → List (Option (Bytes × Bytes)) → Option Bytes
last_path q [] = none
last_path q (none ∷ rest) = last_path q rest
last_path q (some (key, path) ∷ rest) =
    or_else (last_path q rest) (if bytes_eq key q then some path else none)

or_else_assoc :
    (a : Option Bytes) (b : Bool) (path : Bytes) (rest : Option Bytes)
    → or_else a (if b then some path else rest)
      ≡ or_else (or_else a (if b then some path else none)) rest
or_else_assoc none true path rest = refl
or_else_assoc none false path rest = refl
or_else_assoc (some x) b path rest = refl

module _ (to_lowercase : Bytes → Bytes) (pubkey_of : Bytes → Option Bytes) where
  get-scan_entries :
      (q : Bytes) (index : Index) (entries : List (Option DirEntry))
      → get q (scan_entries to_lowercase pubkey_of index entries)
        ≡ or_else (last_path q (map (indexed to_lowercase pubkey_of) entries)) (get q index)
  unfolding scan_entries last_path insert_entry
  get-scan_entries q index [] = refl
  get-scan_entries q index (entry ∷ rest) =
      elim (Option-cases (indexed to_lowercase pubkey_of entry)) [
        | inl skipped ↦ rw skipped (get-scan_entries q index rest)
        | inr ((key, path), taken) ↦ rw taken (
            get-scan_entries q (insert key path index) rest
            ∙ ap (or_else (last_path q (map (indexed to_lowercase pubkey_of) rest)))
                (get-insert key path q index)
            ∙ or_else_assoc (last_path q (map (indexed to_lowercase pubkey_of) rest))
                (bytes_eq key q) path (get q index))
      ]

  or_else-none : (a : Option Bytes) → or_else a none ≡ a
  or_else-none none = refl
  or_else-none (some x) = refl

  -- Looking a public key up finds the last of the pairs that were inserted under its normalized text.
  pub lookup-scan_dir :
      {E : Type 0}
      → (entries : List (Option DirEntry)) (index : Index) (pubkey_hex : Bytes)
      → scan_dir to_lowercase pubkey_of {E = E} (ok entries) ≡ ok index
      → lookup to_lowercase pubkey_hex index
        ≡ last_path
            (normalize_pubkey to_lowercase pubkey_hex)
            (map (indexed to_lowercase pubkey_of) entries)
  unfolding scan_dir lookup
  lookup-scan_dir entries index pubkey_hex h =
      rw (sym (ok-injective h))
        (get-scan_entries (normalize_pubkey to_lowercase pubkey_hex) [] entries ∙ or_else-none _)
