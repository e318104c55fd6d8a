-- ===== src/Effect/Action.antt =====
-- Code with effects: an action takes the state of the system and returns a result with the new state.
-- What was written before a raise stays written.
use relayq.Prelude.{Bool, true, false, ◌≡◌, refl}
use relayq.Effect.{Exception, Result, ok, err, is_exception}

abbrev pub Action : Type 0 → Type 0 → Type 0
Action S A = S → Result A × S

-- What follows a step that returned; a step that raised ends the action.
abbrev pub continue : {S A B : Type 0} → Result A → (A → Action S B) → Action S B
continue (ok a) f s = f a s
continue (err e) f s = (err e, s)

infixl 5 ◌>>=◌ ◌>>◌
abbrev pub ◌>>=◌ : {S A B : Type 0} → Action S A → (A → Action S B) → Action S B
◌>>=◌ m f s = let (r, s') = m s in continue r f s'

abbrev pub ◌>>◌ : {S A B : Type 0} → Action S A → Action S B → Action S B
m >> n = m >>= λ _. n

abbrev pub pure : {S A : Type 0} → A → Action S A
pure a s = (ok a, s)

abbrev pub raise : {S A : Type 0} → Exception → Action S A
raise e s = (err e, s)

abbrev pub lift : {S A : Type 0} → Result A → Action S A
lift r s = (r, s)

abbrev pub skip : {S : Type 0} → Action S (Unit {0})
skip s = (ok tt, s)

-- `try: m / except Exception: handler`, which a cancellation passes through.
abbrev caught : {S A : Type 0} → Bool → Exception → (Exception → Action S A) → Action S A
caught true e handler s = handler e s
caught false e handler s = (err e, s)

abbrev recovered : {S A : Type 0} → Result A → (Exception → Action S A) → Action S A
recovered (ok a) handler s = (ok a, s)
recovered (err e) handler s = caught (is_exception e) e handler s

unfoldable pub try_except : {S A : Type 0} → Action S A → (Exception → Action S A) → Action S A
unfolding is_exception
try_except m handler s = let (r, s') = m s in recovered r handler s'

-- Code without effects leaves the state of the action before it.
pub continue-lift :
    {S A B : Type 0} (r : Result A) (f : A → Result B) (s : S)
    → (continue r (λ a. lift (f a)) s).1 ≡ s
continue-lift (ok a) f s = refl
continue-lift (err e) f s = refl

pub continue-pure :
    {S A B : Type 0} (r : Result A) (b : B) (s : S) → (continue r (λ _. pure b) s).1 ≡ s
continue-pure (ok a) b s = refl
continue-pure (err e) b s = refl
