-- ===== src/Effects.antt =====
-- Asynchronous code that reads and writes a state and may throw. An error keeps the state that was
-- reached when it was thrown.
use zk_auth.Prelude.{
  arith, ◌≡◌, ◌≢◌, refl, sym, subst, ◌⊎◌, inl, inr, Bool, true, false, if◌then◌else◌,
}
use zk_auth.Errors.{Error}

pub data Outcome {ℓ} (W : Type ℓ) (A : Type 0) : Type ℓ where
  ok : A → W → Outcome W A
  err : Error → W → Outcome W A

abbrev pub M {ℓ} : Type ℓ → Type 0 → Type ℓ
M W A = W → Outcome W A

infixl 5 ◌>>=◌ ◌>>◌
abbrev pub ◌>>=◌ {ℓ} : {W : Type ℓ} {A B : Type 0} → M W A → (A → M W B) → M W B
◌>>=◌ m f w = elim (m w) [ ok a w' ↦ f a w' | err e w' ↦ err e w' ]

abbrev pub ◌>>◌ {ℓ} : {W : Type ℓ} {B : Type 0} → M W (Unit {0}) → M W B → M W B
m >> k = m >>= λ _. k

abbrev pub return {ℓ} : {W : Type ℓ} {A : Type 0} → A → M W A
return a w = ok a w

abbrev pub throw {ℓ} : {W : Type ℓ} {A : Type 0} → Error → M W A
throw e w = err e w

-- `try { m } catch (e) { h(e) }`
abbrev pub try_catch {ℓ} : {W : Type ℓ} {A : Type 0} → M W A → (Error → M W A) → M W A
try_catch m h w = elim (m w) [ ok a w' ↦ ok a w' | err e w' ↦ h e w' ]

-- `m.catch(() => {})`: the failure is logged, if at all, and forgotten.
abbrev pub best_effort {ℓ} : {W : Type ℓ} → M W (Unit {0}) → M W (Unit {0})
best_effort m w = elim (m w) [ ok _ w' ↦ ok tt w' | err _ w' ↦ ok tt w' ]

-- `try { m } finally { last }`, for a `last` that does not throw.
abbrev pub finally {ℓ} : {W : Type ℓ} {A : Type 0} → M W A → (W → W) → M W A
finally m last w = elim (m w) [ ok a w' ↦ ok a (last w') | err e w' ↦ err e (last w') ]

abbrev pub final {ℓ} : {W : Type ℓ} {A : Type 0} → Outcome W A → W
final (ok a w) = w
final (err e w) = w

-- What is returned or thrown, without the state.
abbrev pub forget {ℓ} : {W : Type ℓ} {A : Type 0} → Outcome W A → Outcome (Unit {0}) A
forget (ok a w) = ok a tt
forget (err e w) = err e tt

-- The outcome is this error, in whatever state.
abbrev pub FailsWith {ℓ} : {W : Type ℓ} {A : Type 0} → Error → Outcome W A → Type 0
FailsWith e (ok a w) = ⊥
FailsWith e (err e' w) = e' ≡ e

abbrev pub Succeeds {ℓ} : {W : Type ℓ} {A : Type 0} → Outcome W A → Type 0
Succeeds (ok a w) = Unit {0}
Succeeds (err e w) = ⊥

pub not-Succeeds {ℓ} :
    {W : Type ℓ} {A : Type 0} (r : Outcome W A) → ((a : A) (w : W) → r ≢ ok a w) → ¬ Succeeds r
not-Succeeds (ok a w) h s = h a w refl
not-Succeeds (err e w) h s = s

pub Outcome-cases {ℓ} :
    {W : Type ℓ} {A : Type 0} (r : Outcome W A)
    → ((a : A) × (w : W) × (r ≡ ok a w)) ⊎ ((e : Error) × (w : W) × (r ≡ err e w))
Outcome-cases (ok a w) = inl (a, w, refl)
Outcome-cases (err e w) = inr (e, w, refl)

-- What stands behind a step that returned: the step before it returned too.
pub >>=-ok {ℓ} :
    {W : Type ℓ} {A B : Type 0} (m : M W A) (f : A → M W B) (w w' : W) (b : B)
    → (m >>= f) w ≡ ok b w'
    → (a : A) × (v : W) × (m w ≡ ok a v) × (f a v ≡ ok b w')
>>=-ok m f w w' b e = elim (Outcome-cases (m w)) [
  | inl (a, v, h) ↦ (a, v, h, ground (arith, e, h))
  | inr (x, v, h) ↦ absurd (ground (arith, e, h))
]

pub >>=_then {ℓ} :
    {W : Type ℓ} {A B : Type 0} (m : M W A) (f : A → M W B) (w v : W) (a : A)
    → m w ≡ ok a v
    → (m >>= f) w ≡ f a v
>>=_then m f w v a e = ground (arith, e)

pub >>=_stop {ℓ} :
    {W : Type ℓ} {A B : Type 0} (m : M W A) (f : A → M W B) (w v : W) (x : Error)
    → m w ≡ err x v
    → (m >>= f) w ≡ err x v
>>=_stop m f w v x e = ground (arith, e)

-- What an outcome satisfies that is known in each of its two forms.
pub Outcome-split {ℓ ℓ'} :
    {W : Type ℓ} {A : Type 0} (P : Outcome W A → Type ℓ') (r : Outcome W A)
    → ((a : A) (w : W) → r ≡ ok a w → P (ok a w))
    → ((e : Error) (w : W) → r ≡ err e w → P (err e w))
    → P r
Outcome-split P (ok a w) f g = f a w refl
Outcome-split P (err e w) f g = g e w refl

-- What a sequence of two steps satisfies, by what its steps end in.
pub >>=-split {ℓ ℓ'} :
    {W : Type ℓ} {A B : Type 0} (P : Outcome W B → Type ℓ') (m : M W A) (f : A → M W B) (w : W)
    → ((a : A) (v : W) → m w ≡ ok a v → P (f a v))
    → ((e : Error) (v : W) → m w ≡ err e v → P (err e v))
    → P ((m >>= f) w)
>>=-split P m f w h g =
    Outcome-split (λ r. P (elim r [ ok a w' ↦ f a w' | err e w' ↦ err e w' ])) (m w) h g

-- The same for a first step that only reads, and fails where its store is down.
pub >>=-ask {ℓ ℓ'} :
    {W : Type ℓ} {A B : Type 0} (P : Outcome W B → Type ℓ') (m : M W A) (f : A → M W B) (w : W)
    (down : Bool) (a : A) (e : Error)
    → m w ≡ (if down then err e w else ok a w)
    → P (err e w)
    → P (f a w)
    → P ((m >>= f) w)
>>=-ask P m f w true a e h failed went = subst P (sym (>>=_stop m f w w e h)) failed
>>=-ask P m f w false a e h failed went = subst P (sym (>>=_then m f w w a h)) went

pub try_catch-split {ℓ ℓ'} :
    {W : Type ℓ} {A : Type 0} (P : Outcome W A → Type ℓ') (m : M W A) (h : Error → M W A) (w : W)
    → ((a : A) (v : W) → m w ≡ ok a v → P (ok a v))
    → ((e : Error) (v : W) → m w ≡ err e v → P (h e v))
    → P (try_catch m h w)
try_catch-split P m h w went failed =
    Outcome-split (λ r. P (elim r [ ok a w' ↦ ok a w' | err e w' ↦ h e w' ])) (m w) went failed
