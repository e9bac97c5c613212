-- ===== src/Service/Keeps.antt =====
-- What holds of the database after any run of a method, whether it returns or throws.
use kigali_pack.Base.{Bool, true, false, Option, ◌≡◌, sym, subst, inl, inr, Option-cases}
use kigali_pack.Service.{
  Exception, ok, Action, continue, ◌>>=◌, found, throw_if, Result-cases, found-none, found-some,
}

module _ {S : Type 0} where
  -- What a step keeps, and what follows it keeps, both together keep.
  pub after_any {ℓ} :
      {A B : Type 0} (m : Action S A) (f : A → Action S B) (s : S) (P : S → Type ℓ)
      → P (m s).1
      → ((a : A) (t : S) → m s ≡ (ok a, t) → P t → P (f a t).1)
      → P ((m >>= f) s).1
  after_any m f s P p next = elim (Result-cases (m s)) [
    | inl (a, t, e) ↦ subst (λ r. P (continue r f).1) (sym e) (next a t e (subst (λ r. P r.1) e p))
    | inr (x, t, e) ↦ subst (λ r. P (continue r f).1) (sym e) (subst (λ r. P r.1) e p)
  ]

  -- Reads and guards keep everything.
  pub found_keeps {ℓ} :
      {A : Type 0} (read : S → Option A) (e : Exception) (s : S) (P : S → Type ℓ)
      → P s
      → P (found read e s).1
  found_keeps read e s P p = elim (Option-cases (read s)) [
    | inl gone ↦ subst (λ r. P r.1) (sym (found-none read e s gone)) p
    | inr (a, at_a) ↦ subst (λ r. P r.1) (sym (found-some read e s at_a)) p
  ]

  pub throw_if_keeps {ℓ} :
      (b : Bool) (e : Exception) (s : S) (P : S → Type ℓ) → P s → P (throw_if b e s).1
  throw_if_keeps true e s P p = p
  throw_if_keeps false e s P p = p
