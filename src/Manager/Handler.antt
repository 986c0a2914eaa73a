-- ===== src/Manager/Handler.antt =====
-- A gRPC handler: it changes the state that it shares with other calls, and ends with a response,
-- an error, a panic, or never.
use autumn.Prelude.{Bool, true, false, if◌then◌else◌}

pub data Reply {ℓ} (A : Type ℓ) : Type ℓ where
  done : A → Reply A
  refused : Reply A
  crashed : Reply A
  hung : Reply A

abbrev pub Handler {ℓ} : Type ℓ → Type ℓ → Type ℓ
Handler W A = W → W × Reply A

module _ {ℓ} {W A : Type ℓ} where
  abbrev pub pure : A → Handler W A
  pure a w = (w, done a)

  abbrev pub lift : Reply A → Handler W A
  lift r w = (w, r)

  -- A read of the shared state.
  abbrev pub gets : (W → A) → Handler W A
  gets f w = (w, done (f w))

module _ {ℓ} {W A B : Type ℓ} where
  abbrev pub resume : Reply A → (A → Handler W B) → Handler W B
  resume (done a) f w = f a w
  resume refused f w = (w, refused)
  resume crashed f w = (w, crashed)
  resume hung f w = (w, hung)

  infixl 5 ◌>>=◌ ◌>>◌
  abbrev pub ◌>>=◌ : Handler W A → (A → Handler W B) → Handler W B
  ◌>>=◌ m f w = let (w', r) = m w in resume r f w'

  abbrev pub ◌>>◌ : Handler W A → Handler W B → Handler W B
  m >> k = m >>= λ _. k

-- A write to the shared state.
abbrev pub modify : {W : Type 0} → (W → W) → Handler W (Unit {0})
modify f w = (f w, done tt)

-- `if b { return nil, errors.Errorf(…) }`
abbrev pub refuse_if : {W : Type 0} → Bool → Handler W (Unit {0})
refuse_if b w = (w, if b then refused else done tt)

abbrev pub is_done {ℓ} : {A : Type ℓ} → Reply A → Bool
is_done (done a) = true
is_done r = false
