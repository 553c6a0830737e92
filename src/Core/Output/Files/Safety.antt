-- ===== src/Core/Output/Files/Safety.antt =====
-- What a caller of `write_new_0600` and `write_atomic` finds on the disk afterwards.
use eth_utils.Prelude.{ℕ, ◌≡◌, sym, ap, ◌∙◌, inl, inr, Option, none, some, Result}
use eth_utils.Prelude.Bytes.{Bytes, Bytes-eq_cases}
use eth_utils.Core.Disk.{File, Files, Disk, put, remove_file}
use eth_utils.Core.Disk.Laws.{empty_file, free-ne-held, put_self, put_other, remove_file_other}
use eth_utils.Core.Output.Files.{OutputError, guarded, fill_and_publish, write_new_0600}
use eth_utils.Core.Output.Files.Temporary.{create_unique_tmp-Created, fill-Filled}
use eth_utils.Core.Output.Files.Publish.{
  Published, refused, linked, rolled_back, renamed, publish-Published,
}

-- Every file that was there is there, as it was.
abbrev pub Keeps : Files → Files → Type 0
Keeps s t = (q : Bytes) (f : File) → s q ≡ some f → t q ≡ some f

abbrev pub Same : Files → Files → Type 0
Same s t = (q : Bytes) → t q ≡ s q

abbrev pub written_file : Bytes → File
written_file bytes = record { content = bytes; mode = 0o600 }

module _ (disk : Disk) where
  Keeps-put :
      (p : Bytes) (v : Option File) (s t : Files) → s p ≡ none → Keeps s t → Keeps s (put p v t)
  Keeps-put p v s t free h q f held =
      put_other p q v t (free-ne-held s p q f free held) ∙ h q f held

  Keeps-remove_file :
      (p : Bytes) (s t : Files) → s p ≡ none → Keeps s t → Keeps s (remove_file disk p t)
  Keeps-remove_file p s t free h q f held =
      remove_file_other disk p q t (free-ne-held s p q f free held) ∙ h q f held

  Published-Keeps :
      (tmp final : Bytes) (f : File) (s t : Files) (r : Result OutputError (Unit {0}) × Files)
      → s tmp ≡ none
      → Keeps s t
      → (t final ≡ none → s final ≡ none)
      → Published disk tmp final f t r
      → Keeps s r.1
  Published-Keeps tmp final f s t r free h back (refused e is) =
      rw is (Keeps-remove_file tmp s t free h)
  Published-Keeps tmp final f s t r free h back (linked d new p is) =
      rw is (Keeps-remove_file tmp s _ free (Keeps-put final (some f) s t (back new) h))
  Published-Keeps tmp final f s t r free h back (rolled_back e new is) = rw is (
      Keeps-remove_file tmp s _ free (
        Keeps-remove_file final s _ (back new)
          (Keeps-put final (some empty_file) s t (back new) h)))
  Published-Keeps tmp final f s t r free h back (renamed d new p is) = rw is (
      Keeps-put final (some f) s _ (back new)
        (Keeps-put tmp none s _ free (Keeps-put final (some empty_file) s t (back new) h)))

  -- A path that is free after something was put elsewhere was free before.
  pub free_before : (p q : Bytes) (f : File) (s : Files) → put p (some f) s q ≡ none → s q ≡ none
  free_before p q f s h = elim (Bytes-eq_cases p q) [
    | inl same ↦ absurd (cc (put_self p (some f) s, ap (put p (some f) s) same, h))
    | inr apart ↦ sym (put_other p q (some f) s apart) ∙ h
  ]

  fill_and_publish-Keeps :
      (final bytes tmp : Bytes) (s : Files)
      → s tmp ≡ none
      → Keeps s (fill_and_publish disk final bytes tmp (put tmp (some empty_file) s)).1
  unfolding fill_and_publish guarded
  fill_and_publish-Keeps final bytes tmp s free =
      let t = put tmp (some empty_file) s in
      let kept = Keeps-put tmp (some empty_file) s s free (λ q f held. held) in
      elim (fill-Filled disk tmp bytes empty_file t (put_self tmp (some empty_file) s)) [
        | inl (e, g, is) ↦
            rw is (Keeps-remove_file tmp s _ free (Keeps-put tmp (some g) s t free kept))
        | inr is ↦
            let full = put tmp (some (written_file bytes)) t in
            rw is (
              Published-Keeps tmp final (written_file bytes) s full _ free
                (Keeps-put tmp (some (written_file bytes)) s t free kept)
                (λ new.
                  free_before tmp final empty_file s
                    (free_before tmp final (written_file bytes) t new))
                (publish-Published disk tmp final (written_file bytes) full
                  (put_self tmp (some (written_file bytes)) t)))
      ]

  -- Whatever fails, `write_new_0600` changes and removes no file that was there before: not one at
  -- the final path, and not one at the path of an attempted temporary file.
  pub write_new_0600-Keeps :
      (names : ℕ → Bytes) (final bytes : Bytes) (s : Files)
      → Keeps s (write_new_0600 disk names final bytes s).1
  unfolding write_new_0600
  write_new_0600-Keeps names final bytes s = elim (create_unique_tmp-Created disk names s) [
    | inl (e, is) ↦ rw is (λ q f held. held)
    | inr (tmp, free, is) ↦ rw is (fill_and_publish-Keeps final bytes tmp s free)
  ]
