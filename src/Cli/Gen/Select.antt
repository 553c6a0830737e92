-- ===== src/Cli/Gen/Select.antt =====
-- Which error is kept of those that arrive from the worker threads.
use mathlib.Core.Option.{some-injective}
use eth_utils.Prelude.{
  ℕ, zero, suc, ◌≡◌, ◌∙◌, get_elem?, err-injective, err-ne-ok, replicate, refl, sym, ap, inl, inr,
  Bool, true, false, ◌&&◌, ◌||◌, Option, none, some, List, [], ◌∷◌, Result, ok, err, All, leb,
  Bool-cases, if◌then◌else◌, arith,
}
use eth_utils.Cli.Gen.{
  Collected, replaces, select_err, collect_one, collect, outcome, result_of, gather, unwrap_all,
}

module _ {E : Type 0} (is_cancelled : E → Bool) where
  -- The reference order: a real error before a cancellation, and then the lower index first.
  unfoldable pub no_later : ℕ × E → ℕ × E → Bool
  no_later (i, e) (j, f) =
      if is_cancelled e then is_cancelled f && leb i j else is_cancelled f || leb i j

  no_later_refl : (p : ℕ × E) → no_later p p ≡ true
  unfolding no_later
  no_later_refl (i, e) = ground arith

  no_later_trans : (p q r : ℕ × E) → no_later p q ≡ true → no_later q r ≡ true → no_later p r ≡ true
  unfolding no_later
  no_later_trans (i, e) (j, f) (k, g) a b = ground arith

  kept : (cur new : ℕ × E) → replaces is_cancelled cur new ≡ false → no_later cur new ≡ true
  unfolding no_later replaces
  kept (i, e) (j, f) h = ground arith

  replaced : (cur new : ℕ × E) → replaces is_cancelled cur new ≡ true → no_later new cur ≡ true
  unfolding no_later replaces
  replaced (i, e) (j, f) h = ground arith

  -- The errors that arrive, in their order.
  select_all : Option (ℕ × E) → List (ℕ × E) → Option (ℕ × E)
  select_all kept [] = kept
  select_all kept (new ∷ rest) = select_all (select_err is_cancelled kept new) rest

  pick : ℕ × E → List (ℕ × E) → ℕ × E
  pick cur [] = cur
  pick cur (new ∷ rest) = pick (if replaces is_cancelled cur new then new else cur) rest

  select_all-pick :
      (cur : ℕ × E) (errors : List (ℕ × E)) → select_all (some cur) errors ≡ some (pick cur errors)
  unfolding select_all pick select_err
  select_all-pick cur [] = refl
  select_all-pick cur (new ∷ rest) = elim (Bool-cases (replaces is_cancelled cur new)) [
    | inl better ↦ rw better (select_all-pick new rest)
    | inr worse ↦ rw worse (select_all-pick cur rest)
  ]

  -- The first of some errors, at its place among them.
  Leads : ℕ × E → List (ℕ × E) → Type 0
  Leads best errors =
      ((k : ℕ) × (get_elem? errors k ≡ some best))
      × All (λ other. no_later best other ≡ true) errors

  one_more :
      (cur new best : ℕ × E) (rest : List (ℕ × E)) (k : ℕ)
      → get_elem? (cur ∷ rest) k ≡ some best
      → (m : ℕ) × (get_elem? (cur ∷ new ∷ rest) m ≡ some best)
  one_more cur new best rest zero at = (0, at)
  one_more cur new best rest (suc k) at = (suc (suc k), at)

  pick_better :
      (cur new : ℕ × E) (rest : List (ℕ × E))
      → replaces is_cancelled cur new ≡ true
      → pick cur (new ∷ rest) ≡ pick new rest
  unfolding pick
  pick_better cur new rest h = rw h refl

  pick_worse :
      (cur new : ℕ × E) (rest : List (ℕ × E))
      → replaces is_cancelled cur new ≡ false
      → pick cur (new ∷ rest) ≡ pick cur rest
  unfolding pick
  pick_worse cur new rest h = rw h refl

  pick_nil : (cur : ℕ × E) → pick cur [] ≡ cur
  unfolding pick
  pick_nil cur = refl

  alone : (cur : ℕ × E) → Leads cur (cur ∷ [])
  unfolding Leads
  alone cur = ((0, refl), (no_later_refl cur, tt))

  newer_first :
      (best cur new : ℕ × E) (rest : List (ℕ × E))
      → replaces is_cancelled cur new ≡ true
      → Leads best (new ∷ rest)
      → Leads best (cur ∷ new ∷ rest)
  unfolding Leads
  newer_first best cur new rest better ((k, at), (first, others)) =
      ((suc k, at), (no_later_trans best new cur first (replaced cur new better), (first, others)))

  older_first :
      (best cur new : ℕ × E) (rest : List (ℕ × E))
      → replaces is_cancelled cur new ≡ false
      → Leads best (cur ∷ rest)
      → Leads best (cur ∷ new ∷ rest)
  unfolding Leads
  older_first best cur new rest worse ((k, at), (first, others)) = (
    one_more cur new best rest k at,
    (first, (no_later_trans best cur new first (kept cur new worse), others)),
  )

  pick-Leads : (cur : ℕ × E) (errors : List (ℕ × E)) → Leads (pick cur errors) (cur ∷ errors)
  pick-Leads cur [] = rw (pick_nil cur) (alone cur)
  pick-Leads cur (new ∷ rest) = elim (Bool-cases (replaces is_cancelled cur new)) [
    | inl better ↦
        rw (pick_better cur new rest better)
          (newer_first (pick new rest) cur new rest better (pick-Leads new rest))
    | inr worse ↦
        rw (pick_worse cur new rest worse)
          (older_first (pick cur rest) cur new rest worse (pick-Leads cur rest))
  ]

  select_all-Leads :
      (best : ℕ × E) (errors : List (ℕ × E))
      → select_all none errors ≡ some best
      → Leads best errors
  unfolding select_all select_err
  select_all-Leads best [] h = absurd (cc (h))
  select_all-Leads best (new ∷ rest) h =
      let is : pick new rest ≡ best = some-injective _ _ (sym (select_all-pick new rest) ∙ h) in
      rw (sym is) (pick-Leads new rest)

abbrev pub errors_of : {E A : Type 0} → List (ℕ × Result E A) → List (ℕ × E)
errors_of [] = []
errors_of ((i, ok a) ∷ rest) = errors_of rest
errors_of ((i, err e) ∷ rest) = (i, e) ∷ errors_of rest

module _ {E A : Type 0} (is_cancelled : E → Bool) where
  collect-select_all :
      (c : Collected E A) (arrivals : List (ℕ × Result E A))
      → (collect is_cancelled c arrivals).selected_err
        ≡ select_all is_cancelled c.selected_err (errors_of arrivals)
  unfolding collect select_all collect_one
  collect-select_all c [] = refl
  collect-select_all c ((i, ok a) ∷ rest) =
      collect-select_all (collect_one is_cancelled c (i, ok a)) rest
  collect-select_all c ((i, err e) ∷ rest) =
      collect-select_all (collect_one is_cancelled c (i, err e)) rest

  result_of_err :
      (selected : Option (ℕ × E)) (entries : Option (List A)) (e : E)
      → result_of selected entries ≡ some (err e)
      → (i : ℕ) × (selected ≡ some (i, e))
  unfolding result_of
  result_of_err (some (i, f)) entries e h =
      (i, ap (λ g. some (i, g)) (err-injective {A = List A} (some-injective _ _ h)))
  result_of_err none none e h = absurd (cc (h))
  result_of_err none (some entries) e h = absurd (err-ne-ok (sym (some-injective _ _ h)))

  -- If the results of the worker threads come to an error, it is an error that arrived, and no error
  -- that arrived, at whatever time, comes before it: errors that are no cancellation come before
  -- cancellations, and then lower indices first.
  pub gather_first_error :
      (n : ℕ) (arrivals : List (ℕ × Result E A)) (e : E)
      → gather is_cancelled n arrivals ≡ some (err e)
      → (i : ℕ) × (k : ℕ) × (get_elem? (errors_of arrivals) k ≡ some (i, e))
        × All (λ other. no_later is_cancelled (i, e) other ≡ true) (errors_of arrivals)
  unfolding gather Leads outcome
  gather_first_error n arrivals e h =
      let c : Collected E A = record {
        entries = replicate n none;
        selected_err = none;
        done = 0;
      } in
      let (i, found) =
        result_of_err (collect is_cancelled c arrivals).selected_err
          (unwrap_all (collect is_cancelled c arrivals).entries) e h in
      let ((k, at), first) =
        select_all-Leads is_cancelled (i, e) (errors_of arrivals)
          (sym (collect-select_all c arrivals) ∙ found) in
      (i, k, at, first)
