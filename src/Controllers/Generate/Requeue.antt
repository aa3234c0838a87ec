-- ===== src/Controllers/Generate/Requeue.antt =====
-- The requeue time that the controller takes from the generators.
use applicationset.Prelude.{
  ℕ, zero, suc, ℤ, pos, negsuc, ==_iff, ◌≡◌, ◌≢◌, refl, sym, ap, ◌∙◌, ◌⊎◌, inl, inr, true, false,
  List, [], ◌∷◌, ◌++◌, Option, none, some, ltb_ℤ, eqb_ℤ, ◌≤ℤ◌, All, get_elem?, arith, Bool-cases,
}
use mathlib.Core.Path.{subst}
use applicationset.Errors.{Result, ok, err, panic, ◌>>=◌, Result-Cases, is_ok, is_err, is_panic}
use applicationset.Api.Generator.{ApplicationSetGenerator}
use applicationset.Api.ApplicationSet.{ApplicationSet}
use applicationset.Generators.Interface.{Generator, Generators, Duration}
use applicationset.Generators.Transform.{get_relevant_generators}
use applicationset.Controllers.Generate.{
  sooner, min_requeue_one, min_requeue_all, get_min_requeue_after,
}

-- `res` is not after a time `s`, if that is not zero.
abbrev NotAfter : Duration → Duration → Type 0
NotAfter res s = (s ≡ pos 0) ⊎ ((res ≢ pos 0) × (res ≤ℤ s))

-- `res` is the least of the times that are not zero, or zero if all are.
abbrev pub IsSoonest : Duration → List Duration → Type 0
IsSoonest res ts = All (NotAfter res) ts × ((res ≡ pos 0) ⊎ ((i : ℕ) × (get_elem? ts i ≡ some res)))

eqb_ℤ-eq : (a b : ℤ) → eqb_ℤ a b ≡ true → a ≡ b
eqb_ℤ-eq (pos a) (pos b) e = ap pos ((==_iff a b).0 e)
eqb_ℤ-eq (negsuc a) (negsuc b) e = ap negsuc ((==_iff a b).0 e)
eqb_ℤ-eq (pos a) (negsuc b) e = cc
eqb_ℤ-eq (negsuc a) (pos b) e = cc

eqb_ℤ-zero : (a : ℤ) → eqb_ℤ a (pos 0) ≡ false → a ≢ pos 0
eqb_ℤ-zero a e z =
    let zero_test : eqb_ℤ (pos 0) (pos 0) ≡ false = subst (λ x. eqb_ℤ x (pos 0) ≡ false) z e in cc

-- One comparison: the time is taken over, or left.
sooner_cases :
    (t res : Duration)
    → ((res ≡ pos 0) × (sooner t res ≡ t))
      ⊎ (((res ≢ pos 0) × (sooner t res ≡ res) × ((t ≡ pos 0) ⊎ (res ≤ℤ t)))
          ⊎ ((t ≢ pos 0) × (sooner t res ≡ t) × (t ≤ℤ res)))
unfolding sooner
sooner_cases t res = elim (Bool-cases (eqb_ℤ res (pos 0))) [
  | inl e ↦ inl (eqb_ℤ-eq res (pos 0) e, rw (e, sooner))
  | inr e ↦ elim (Bool-cases (eqb_ℤ t (pos 0))) [
    | inl f ↦ inr (inl (eqb_ℤ-zero res e, rw (e, f, sooner), inl (eqb_ℤ-eq t (pos 0) f)))
    | inr f ↦ elim (Bool-cases (ltb_ℤ t res)) [
      | inl g ↦ inr (inr (eqb_ℤ-zero t f, rw (e, f, g, sooner), ground (arith, g)))
      | inr g ↦ inr (inl (eqb_ℤ-zero res e, rw (e, f, g, sooner), inr (ground (arith, g))))
    ]
  ]
]

sooner-keeps : (t res s : Duration) → NotAfter res s → NotAfter (sooner t res) s
sooner-keeps t res s (inl zero_time) = inl zero_time
sooner-keeps t res s (inr (some_time, le)) = elim (sooner_cases t res) [
  | inl (z, e) ↦ absurd (some_time z)
  | inr (inl (n, e, other)) ↦ inr (rw e (some_time, le))
  | inr (inr (n, e, less)) ↦
      let through : t ≤ℤ s = omega (arith, less, le) in inr (rw e (n, through))
]

sooner-NotAfter : (t res : Duration) → NotAfter (sooner t res) t
sooner-NotAfter t res = elim (sooner_cases t res) [
  | inl (z, e) ↦ elim (Bool-cases (eqb_ℤ t (pos 0))) [
    | inl f ↦ inl (eqb_ℤ-eq t (pos 0) f)
    | inr f ↦ let same : t ≤ℤ t = omega arith in inr (rw e (eqb_ℤ-zero t f, same))
  ]
  | inr (inl (n, e, inl z)) ↦ inl z
  | inr (inl (n, e, inr le)) ↦ inr (rw e (n, le))
  | inr (inr (n, e, less)) ↦ let same : t ≤ℤ t = omega arith in inr (rw e (n, same))
]

-- The comparisons with each of the times.
abbrev soonest : Duration → List Duration → Duration
soonest res [] = res
soonest res (t ∷ ts) = soonest (sooner t res) ts

soonest-keeps :
    (ts : List Duration) (res s : Duration) → NotAfter res s → NotAfter (soonest res ts) s
soonest-keeps [] res s h = h
soonest-keeps (t ∷ ts) res s h = soonest-keeps ts (sooner t res) s (sooner-keeps t res s h)

soonest-NotAfter : (ts : List Duration) (res : Duration) → All (NotAfter (soonest res ts)) ts
soonest-NotAfter [] res = tt
soonest-NotAfter (t ∷ ts) res =
    (soonest-keeps ts (sooner t res) t (sooner-NotAfter t res), soonest-NotAfter ts (sooner t res))

-- The result is where the comparisons began, or one of the times.
soonest-attained :
    (ts : List Duration) (res : Duration)
    → (soonest res ts ≡ res) ⊎ ((i : ℕ) × (get_elem? ts i ≡ some (soonest res ts)))
soonest-attained [] res = inl refl
soonest-attained (t ∷ ts) res = elim (soonest-attained ts (sooner t res)) [
  | inr (i, at) ↦ inr (suc i, at)
  | inl stays ↦ elim (sooner_cases t res) [
    | inl (z, e) ↦ inr (zero, ap some (sym (stays ∙ e)))
    | inr (inl (n, e, other)) ↦ inl (stays ∙ e)
    | inr (inr (n, e, less)) ↦ inr (zero, ap some (sym (stays ∙ e)))
  ]
]

-- The times that the generators of one request ask for, in order.
abbrev times_of : ApplicationSetGenerator → List (Option Generator) → Result (List Duration)
times_of requested [] = ok []
times_of requested (none ∷ gs) = panic
times_of requested (some g ∷ gs) = do
  t ← g.get_requeue_after requested
  ts ← times_of requested gs
  ok (t ∷ ts)

-- Those that the generators of all requests ask for.
abbrev pub requeue_times : Generators → List ApplicationSetGenerator → Result (List Duration)
requeue_times supported [] = ok []
requeue_times supported (requested ∷ rest) = do
  ts ← times_of requested (get_relevant_generators requested supported)
  us ← requeue_times supported rest
  ok (ts ++ us)

soonest-append :
    (ts us : List Duration) (res : Duration) → soonest res (ts ++ us) ≡ soonest (soonest res ts) us
soonest-append [] us res = refl
soonest-append (t ∷ ts) us res = soonest-append ts us (sooner t res)

bind_assoc :
    {A B C : Type 0} (r : Result A) (f : A → Result B) (g : B → Result C)
    → (r >>= f) >>= g ≡ r >>= λ a. f a >>= g
bind_assoc (ok a) f g = refl
bind_assoc (err e) f g = refl
bind_assoc panic f g = refl

min_requeue_one-times :
    (requested : ApplicationSetGenerator) (gs : List (Option Generator)) (res : Duration)
    → min_requeue_one requested gs res ≡ (times_of requested gs >>= λ ts. ok (soonest res ts))
unfolding min_requeue_one
min_requeue_one-times requested [] res = refl
min_requeue_one-times requested (none ∷ gs) res = refl
min_requeue_one-times requested (some g ∷ gs) res =
    elim (Result-Cases (g.get_requeue_after requested)) [
      | is_err x e ↦ rw e
      | is_panic e ↦ rw e
      | is_ok t e ↦ rw e (
          min_requeue_one-times requested gs (sooner t res)
          ∙ sym (bind_assoc (times_of requested gs) _ _))
    ]

min_requeue_all-times :
    (supported : Generators) (requests : List ApplicationSetGenerator) (res : Duration)
    → min_requeue_all supported requests res
      ≡ (requeue_times supported requests >>= λ ts. ok (soonest res ts))
unfolding min_requeue_all
min_requeue_all-times supported [] res = refl
min_requeue_all-times supported (requested ∷ rest) res =
    let gs = get_relevant_generators requested supported in
    rw (min_requeue_one-times requested gs res) (elim (Result-Cases (times_of requested gs)) [
      | is_err x e ↦ rw e
      | is_panic e ↦ rw e
      | is_ok ts e ↦
          rw (e, min_requeue_all-times supported rest (soonest res ts))
            (elim (Result-Cases (requeue_times supported rest)) [
              | is_err x f ↦ rw f
              | is_panic f ↦ rw f
              | is_ok us f ↦ rw (f, soonest-append ts us res)
            ])
    ])

-- If every generator that the requests name answers with its requeue time, `getMinRequeueAfter`
-- returns the least of the times that are not zero, and zero if all are.
pub get_min_requeue_after-IsSoonest :
    (supported : Generators) (app_set : ApplicationSet) (ts : List Duration)
    → requeue_times supported app_set.spec.generators ≡ ok ts
    → (r : Duration) × (get_min_requeue_after supported app_set ≡ ok r) × IsSoonest r ts
unfolding get_min_requeue_after
get_min_requeue_after-IsSoonest supported app_set ts answers = (
  soonest (pos 0) ts,
  min_requeue_all-times supported app_set.spec.generators (pos 0) ∙ rw answers,
  (soonest-NotAfter ts (pos 0), soonest-attained ts (pos 0)),
)
