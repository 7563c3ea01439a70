-- ===== src/Base/Errors.antt =====
-- The error crate (src/crates/error/src/lib.rs) and `NetResult` (src/crates/bey-net/src/lib.rs).
-- An error carries its code, category and severity; message, context and source texts, which no
-- code reads, are left out. `panics` is a run that stops by a Rust panic.
use Prim.Native.Nat.{ℕ}
use mathlib.Core.Path.{◌≡◌, refl}
use mathlib.Core.Logic.{◌⊎◌, inl, inr}

pub data ErrorSeverity : Type 0 where
  debug info warning error critical : ErrorSeverity

pub data ErrorCategory : Type 0 where
  io network parse validation permission configuration database business system : ErrorCategory
  compression storage file_system authentication authorization encryption : ErrorCategory
  not_implemented other : ErrorCategory

pub record ErrorInfo : Type 0 where
  pub code : ℕ
  pub severity : ErrorSeverity
  pub category : ErrorCategory

-- `ErrorInfo::new`.
abbrev pub new_error : ℕ → ErrorInfo
new_error c = record { code = c; severity = error; category = other }

abbrev pub with_category : ErrorInfo → ErrorCategory → ErrorInfo
with_category e c = record e { category = c }

abbrev pub with_severity : ErrorInfo → ErrorSeverity → ErrorInfo
with_severity e s = record e { severity = s }

pub data NetResult {ℓ} (A : Type ℓ) : Type ℓ where
  ok : A → NetResult A
  err : ErrorInfo → NetResult A
  panics : NetResult A

-- The operator `?`.
infixl 5 ◌>>=◌ ◌>>◌
abbrev pub ◌>>=◌ {ℓ κ} : {A : Type ℓ} {B : Type κ} → NetResult A → (A → NetResult B) → NetResult B
ok a >>= f = f a
err e >>= f = err e
panics >>= f = panics

abbrev pub ◌>>◌ {ℓ} : {B : Type ℓ} → NetResult (Unit {0}) → NetResult B → NetResult B
m >> k = m >>= λ _. k

pub NetResult-cases {ℓ} :
    {A : Type ℓ} (r : NetResult A)
    → ((a : A) × (r ≡ ok a)) ⊎ ((e : ErrorInfo) × (r ≡ err e)) ⊎ (r ≡ panics)
NetResult-cases (ok a) = inl (a, refl)
NetResult-cases (err e) = inr (inl (e, refl))
NetResult-cases panics = inr (inr refl)
