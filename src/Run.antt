-- ===== src/Run.antt =====
-- How a call of the program ends, and the rules for calls that return.
use dreamboat_rpc.Prelude.{
  ◌≡◌, refl, sym, subst, ◌∙◌, Bool, true, false, Option, none, some, if◌then◌else◌,
}

-- A returned value; a process that ends by `exit` or a failed `assert`; undefined behaviour (an
-- access out of range, a null pointer); or the model's fuel running out.
pub data Run {ℓ} (A : Type ℓ) : Type ℓ where
  ok : A → Run A
  aborts faults out_of_fuel : Run A

infixl 5 ◌>>=◌
abbrev pub ◌>>=◌ {ℓ κ} : {S : Type ℓ} {T : Type κ} → Run S → (S → Run T) → Run T
ok v >>= next = next v
aborts >>= next = aborts
faults >>= next = faults
out_of_fuel >>= next = out_of_fuel

-- A value that is absent where the program reads it without a check.
abbrev pub or_fault {ℓ} : {S : Type ℓ} → Option S → Run S
or_fault none = faults
or_fault (some v) = ok v

pub ok-injective {ℓ} : {S : Type ℓ} {v w : S} → ok v ≡ ok w → v ≡ w
ok-injective e = cc

-- A bind that returns has returned at both parts.
pub >>=-eq-ok {ℓ κ} :
    {S : Type ℓ} {T : Type κ} (first : Run S) (next : S → Run T) {w : T}
    → (first >>= next) ≡ ok w
    → (v : S) × (first ≡ ok v) × (next v ≡ ok w)
>>=-eq-ok aborts next e = cc
>>=-eq-ok faults next e = cc
>>=-eq-ok out_of_fuel next e = cc
>>=-eq-ok (ok v) next e = (v, refl, e)

-- The run returns, with a value that satisfies `Post`.
pub data Returns {ℓ κ} {S : Type ℓ} (Post : S → Type κ) : Run S → Type (ℓ ⊔ κ) where
  returns : {v : S} → Post v → Returns Post (ok v)

module _ {ℓ κ} {S : Type ℓ} {Post : S → Type κ} where
  pub Returns-inv : {run : Run S} → Returns Post run → (v : S) × (run ≡ ok v) × Post v
  Returns-inv (returns holds) = (_, refl, holds)

  -- What a run that returns gives at a known value.
  pub Returns-at : {run : Run S} {v : S} → Returns Post run → run ≡ ok v → Post v
  Returns-at ret e =
      let (w, f, holds) = Returns-inv ret in subst Post (ok-injective (sym f ∙ e)) holds

  pub Returns-if :
      {yes_run no_run : Run S} (test : Bool)
      → (test ≡ true → Returns Post yes_run)
      → (test ≡ false → Returns Post no_run)
      → Returns Post (if test then yes_run else no_run)
  Returns-if false on off = off refl
  Returns-if true on off = on refl

  pub Returns-map {κ'} :
      {Weaker : S → Type κ'} {run : Run S}
      → Returns Post run
      → ((v : S) → Post v → Weaker v)
      → Returns Weaker run
  Returns-map (returns holds) weaken = returns (weaken _ holds)

  pub Returns-bind {ℓ' κ'} :
      {T : Type ℓ'} {Then : T → Type κ'} {run : Run S} {next : S → Run T}
      → Returns Post run
      → ((v : S) → Post v → Returns Then (next v))
      → Returns Then (run >>= next)
  Returns-bind (returns holds) continue = continue _ holds

-- What holds of a run if it returns.
abbrev pub IfOk {ℓ κ} : {S : Type ℓ} → (S → Type κ) → Run S → Type κ
IfOk Post (ok v) = Post v
IfOk Post aborts = Unit {κ}
IfOk Post faults = Unit {κ}
IfOk Post out_of_fuel = Unit {κ}

module _ {ℓ κ} {S : Type ℓ} (Post : S → Type κ) where
  pub IfOk-of_returns : {run : Run S} → Returns Post run → IfOk Post run
  IfOk-of_returns (returns holds) = holds

  pub IfOk-at : (run : Run S) {v : S} → IfOk Post run → run ≡ ok v → Post v
  IfOk-at run {v} holds e = subst (IfOk Post) e holds

  pub IfOk-if :
      (x y : Run S) (test : Bool)
      → (test ≡ true → IfOk Post x)
      → (test ≡ false → IfOk Post y)
      → IfOk Post (if test then x else y)
  IfOk-if x y false on off = off refl
  IfOk-if x y true on off = on refl

  pub IfOk-bind {ℓ'} :
      {T : Type ℓ'} (first : Run T) (next : T → Run S)
      → ((v : T) → first ≡ ok v → IfOk Post (first >>= next))
      → IfOk Post (first >>= next)
  IfOk-bind (ok v) next k = k v refl
  IfOk-bind aborts next k = tt
  IfOk-bind faults next k = tt
  IfOk-bind out_of_fuel next k = tt

  pub IfOk-then {ℓ'} :
      {T : Type ℓ'} (first : Run T) (next : T → Run S)
      → ((v : T) → IfOk Post (next v))
      → IfOk Post (first >>= next)
  IfOk-then (ok v) next k = k v
  IfOk-then aborts next k = tt
  IfOk-then faults next k = tt
  IfOk-then out_of_fuel next k = tt

pub IfOk-always {ℓ κ} : {S : Type ℓ} {P : Type κ} (run : Run S) → P → IfOk (λ v. P) run
IfOk-always (ok v) holds = holds
IfOk-always aborts holds = tt
IfOk-always faults holds = tt
IfOk-always out_of_fuel holds = tt

-- If a bind returns, its first part has.
pub IfOk-first {ℓ κ} :
    {S : Type ℓ} {T : Type κ} (first : Run S) (next : S → Run T)
    → IfOk (λ w. (v : S) × (first ≡ ok v)) (first >>= next)
IfOk-first (ok v) next = IfOk-always (next v) (v, refl)
IfOk-first aborts next = tt
IfOk-first faults next = tt
IfOk-first out_of_fuel next = tt

-- What is put in front of a result twice.
pub >>=-twice {ℓ κ} :
    {S : Type ℓ} {T : Type κ} {U : Type κ} (run : Run S) (f : S → T) (g : T → U)
    → (run >>= (λ v. ok (f v)) >>= λ w. ok (g w)) ≡ (run >>= λ v. ok (g (f v)))
>>=-twice (ok v) f g = refl
>>=-twice aborts f g = refl
>>=-twice faults f g = refl
>>=-twice out_of_fuel f g = refl
