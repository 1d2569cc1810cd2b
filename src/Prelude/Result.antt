-- ===== src/Prelude/Result.antt =====
-- A Python call that returns or raises.
use telar.Prelude.{◌≢◌, ◌⊎◌, inl, inr, Bool, true, false, Option, none, some, ◌≡◌, refl, ap}

pub data Result (E A : Type 0) : Type 0 where
  ok : A → Result E A
  err : E → Result E A

infixl 5 ◌>>=◌ ◌>>◌
abbrev pub ◌>>=◌ : {E A B : Type 0} → Result E A → (A → Result E B) → Result E B
err raised >>= rest = err raised
ok value >>= rest = rest value

abbrev pub ◌>>◌ : {E B : Type 0} → Result E (Unit {0}) → Result E B → Result E B
first >> rest = first >>= λ done. rest

-- `if test: raise error`
abbrev pub raise_if : {E : Type 0} → Bool → E → Result E (Unit {0})
raise_if true e = err e
raise_if false e = ok tt

-- `d[k]`, where a missing key raises `error`
abbrev pub or_raise : {E A : Type 0} → Option A → E → Result E A
or_raise none e = err e
or_raise (some a) e = ok a

-- What built-in operations raise.
pub data Exception : Type 0 where
  key_error index_error type_error value_error zero_division overflow_error os_failure
        attribute_error :
      Exception

pub raise_if-eq-ok :
    {E : Type 0} (b : Bool) (e : E) {u : Unit {0}} → raise_if b e ≡ ok u → b ≡ false
raise_if-eq-ok true e h = cc
raise_if-eq-ok false e h = refl

-- A chain of calls returns only where its first call does.
pub >>=-eq-ok :
    {E A B : Type 0} (first : Result E A) (rest : A → Result E B) {result : B}
    → first >>= rest ≡ ok result
    → (middle : A) × (first ≡ ok middle) × (rest middle ≡ ok result)
>>=-eq-ok (err raised) rest h = cc
>>=-eq-ok (ok middle) rest h = (middle, refl, h)

-- What follows a check runs only where the check passes.
pub guard-eq-ok :
    {E A : Type 0} (b : Bool) (e : E) (k : Unit {0} → Result E A) {a : A}
    → (raise_if b e >>= k) ≡ ok a
    → (b ≡ false) × (k tt ≡ ok a)
guard-eq-ok true e k h = cc
guard-eq-ok false e k h = (refl, h)

module _ {E A : Type 0} where
  abbrev pub get_ok : A → Result E A → A
  get_ok d (ok a) = a
  get_ok d (err e) = d

  pub ok-injective : {a b : A} → ◌≡◌ {A = Result E A} (ok a) (ok b) → a ≡ b
  ok-injective {a} h = ap (get_ok a) h

  abbrev get_err : E → Result E A → E
  get_err d (ok a) = d
  get_err d (err e) = e

  pub err-injective : {a b : E} → ◌≡◌ {A = Result E A} (err a) (err b) → a ≡ b
  err-injective {a} h = ap (get_err a) h

  pub ok_or_err : {a : A} {e : E} → ◌≢◌ {A = Result E A} (ok a) (err e)
  ok_or_err h = cc

  pub or_raise-eq-ok : (o : Option A) (e : E) {a : A} → or_raise o e ≡ ok a → o ≡ some a
  or_raise-eq-ok none e h = cc
  or_raise-eq-ok (some b) e h = cc

  pub Result-cases : (r : Result E A) → ((a : A) × (r ≡ ok a)) ⊎ ((e : E) × (r ≡ err e))
  Result-cases (ok a) = inl (a, refl)
  Result-cases (err e) = inr (e, refl)
