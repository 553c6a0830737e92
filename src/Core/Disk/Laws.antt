-- ===== src/Core/Disk/Laws.antt =====
-- What the calls do to the files at other paths, and when they succeed.
use eth_utils.Prelude.{
  ℕ, ◌≡◌, ◌≢◌, refl, ap, ◌⊎◌, inl, inr, Option, none, some, [], Result, ok, err,
}
use eth_utils.Prelude.Bytes.{Bytes, bytes_eq_refl, ne→bytes_eq_false}
use eth_utils.Core.Disk.{
  IoKind, already_exists, File, Files, Disk, put, answer, create_on, create_new, link_on, hard_link,
  rename, removed, remove_file, write_on, write_all, sync_all, set_permissions,
}

pub put_self : (p : Bytes) (v : Option File) (s : Files) → put p v s p ≡ v
unfolding put
put_self p v s = rw (bytes_eq_refl p)

pub put_other : (p q : Bytes) (v : Option File) (s : Files) → p ≢ q → put p v s q ≡ s q
unfolding put
put_other p q v s h = rw (ne→bytes_eq_false p q h)

-- A path that holds a file is not one that holds none.
pub free-ne-held : (s : Files) (p q : Bytes) (f : File) → s p ≡ none → s q ≡ some f → p ≢ q
free-ne-held s p q f free held e = cc (ap s e)

-- A call fails and changes nothing, or does what it is for.
abbrev pub Answered : Result IoKind (Unit {0}) × Files → Files → Files → Type 0
Answered r next s = ((k : IoKind) × (r ≡ (err k, s))) ⊎ (r ≡ (ok tt, next))

answer-Answered : (o : Option IoKind) (next s : Files) → Answered (answer o next s) next s
unfolding answer
answer-Answered none next s = inr refl
answer-Answered (some k) next s = inl (k, refl)

abbrev pub empty_file : File
empty_file = record { content = []; mode = 0o600 }

module _ (disk : Disk) where
  -- A new file is made at a free path, or nothing is changed.
  pub create_new_cases :
      (p : Bytes) (s : Files)
      → ((k : IoKind) × (create_new disk p s ≡ (err k, s)))
        ⊎ ((s p ≡ none) × (create_new disk p s ≡ (ok tt, put p (some empty_file) s)))
  unfolding create_new
  create_new_cases p s = at_path (s p) refl
    where
      at_path :
          (o : Option File)
          → s p ≡ o
          → ((k : IoKind) × (create_on disk p o s ≡ (err k, s)))
            ⊎ ((o ≡ none) × (create_on disk p o s ≡ (ok tt, put p (some empty_file) s)))
      at_path (some f) e = inl (already_exists, refl)
      at_path none e = elim (answer-Answered (disk.creates p) (put p (some empty_file) s) s) [
        | inl failed ↦ inl failed
        | inr done ↦ inr (refl, done)
      ]

  -- A write replaces the content of a file that is there, by the bytes if it succeeds.
  pub write_all_cases :
      (p bytes : Bytes) (f : File) (s : Files)
      → s p ≡ some f
      → ((k : IoKind) × (g : File) × (write_all disk p bytes s ≡ (err k, put p (some g) s)))
        ⊎ (write_all disk p bytes s ≡ (ok tt, put p (some (record f { content = bytes })) s))
  unfolding write_all
  write_all_cases p bytes f s e = rw e (outcome (disk.writes p))
    where
      outcome :
          (o : Option IoKind)
          → ((k : IoKind) × (g : File) × (write_on disk p bytes o (some f) s
                ≡ (err k, put p (some g) s)))
            ⊎ (write_on disk p bytes o (some f) s
                ≡ (ok tt, put p (some (record f { content = bytes })) s))
      outcome none = inr refl
      outcome (some k) = inl (k, record f { content = disk.leaves p bytes }, refl)

  pub set_permissions_cases :
      (p : Bytes) (mode : ℕ) (f : File) (s : Files)
      → s p ≡ some f
      → Answered (set_permissions disk p mode s) (put p (some (record f { mode = mode })) s) s
  unfolding set_permissions
  set_permissions_cases p mode f s e =
      rw e (answer-Answered (disk.chmods p) (put p (some (record f { mode = mode })) s) s)

  pub sync_all_cases : (p : Bytes) (s : Files) → Answered (sync_all disk p s) s s
  unfolding sync_all
  sync_all_cases p s = answer-Answered (disk.syncs p) s s

  -- A link is made to a free path only.
  pub hard_link_cases :
      (p q : Bytes) (f : File) (s : Files)
      → s p ≡ some f
      → ((k : IoKind) × (hard_link disk p q s ≡ (err k, s)))
        ⊎ ((s q ≡ none) × (hard_link disk p q s ≡ (ok tt, put q (some f) s)))
  unfolding hard_link
  hard_link_cases p q f s e = rw e (at_target (s q) refl)
    where
      at_target :
          (o : Option File)
          → s q ≡ o
          → ((k : IoKind) × (link_on disk p q (some f) o s ≡ (err k, s)))
            ⊎ ((o ≡ none) × (link_on disk p q (some f) o s ≡ (ok tt, put q (some f) s)))
      at_target (some g) h = inl (already_exists, refl)
      at_target none h = elim (answer-Answered (disk.links p q) (put q (some f) s) s) [
        | inl failed ↦ inl failed
        | inr done ↦ inr (refl, done)
      ]

  pub rename_cases :
      (p q : Bytes) (f : File) (s : Files)
      → s p ≡ some f
      → Answered (rename disk p q s) (put q (some f) (put p none s)) s
  unfolding rename
  rename_cases p q f s e =
      rw e (answer-Answered (disk.renames p q) (put q (some f) (put p none s)) s)

  pub remove_file_other : (p q : Bytes) (s : Files) → p ≢ q → remove_file disk p s q ≡ s q
  unfolding remove_file
  remove_file_other p q s h = outcome (disk.removes p)
    where
      outcome : (o : Option IoKind) → removed p o s q ≡ s q
      outcome none = put_other p q none s h
      outcome (some k) = refl

  pub remove_file_done :
      (p : Bytes) (s : Files) → disk.removes p ≡ none → remove_file disk p s ≡ put p none s
  unfolding remove_file removed
  remove_file_done p s h = rw h
