-- ===== src/Errors/Laws.antt =====
-- How to read a computed result: inversions of `ok` and of the bind.
use applicationset.Prelude.{◌≡◌, refl, ap}
use applicationset.Errors.{Result, ok, err, panic, ◌>>=◌, NoPanic}

result_or {ℓ} : {A : Type ℓ} → A → Result A → A
result_or d (ok a) = a
result_or d _ = d

pub ok-injective {ℓ} : {A : Type ℓ} {a b : A} → ok a ≡ ok b → a ≡ b
ok-injective {a = a} e = unfold result_or in ap (result_or a) e

-- A chain that succeeds has a first step that succeeds.
pub bind-ok {ℓ κ} :
    {A : Type ℓ} {B : Type κ} (r : Result A) {f : A → Result B} {b : B}
    → (r >>= f) ≡ ok b
    → (a : A) × (r ≡ ok a) × (f a ≡ ok b)
bind-ok (ok a) h = (a, refl, h)
bind-ok (err e) h = cc
bind-ok panic h = cc

-- A chain does not panic if no step does.
pub bind-NoPanic {ℓ κ} :
    {A : Type ℓ} {B : Type κ} (r : Result A) (f : A → Result B)
    → NoPanic r
    → ((a : A) → r ≡ ok a → NoPanic (f a))
    → NoPanic (r >>= f)
bind-NoPanic (ok a) f h k = k a refl
bind-NoPanic (err e) f h k = tt
bind-NoPanic panic f h k = h
