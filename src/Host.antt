-- ===== src/Host.antt =====
-- The system under the plugin: files and the pgBackRest program. Its calls are parameters, with a
-- state that they change; what the code relies on is stated as laws.
pub mod Memory
use cnpg_plugin_pgbackrest.Base.{
  ℕ, ◌≡◌, refl, ◌⊎◌, inl, inr, Bool, true, false, List, Option, Text, str_eq, if◌then◌else◌, Result,
  ok, err, Error, wrapped,
}

-- A call that changes the state and may fail; a failure ends the chain, and its effects stay.
abbrev pub Act : Type 0 → Type 0 → Type 0
Act S A = S → Result A × S

module _ {S : Type 0} where
  abbrev pub and_then : {A B : Type 0} → Result A × S → (A → Act S B) → Result B × S
  and_then (ok a, s) f = f a s
  and_then (err e, s) f = (err e, s)

  infixl 5 ◌>>=◌ ◌>>◌
  abbrev pub ◌>>=◌ : {A B : Type 0} → Act S A → (A → Act S B) → Act S B
  ◌>>=◌ m f s = and_then (m s) f

  abbrev pub ◌>>◌ : {B : Type 0} → Act S (Unit {0}) → Act S B → Act S B
  ◌>>◌ m k s = and_then (m s) (λ _. k)

  abbrev pub return : {A : Type 0} → A → Act S A
  return a s = (ok a, s)

  abbrev pub fail : {A : Type 0} → Error → Act S A
  fail e s = (err e, s)

-- `fmt.Errorf("…: %w", err)` around the error of a call.
abbrev pub wrap_result : {A : Type 0} → Text → Result A → Result A
wrap_result m (ok a) = ok a
wrap_result m (err e) = err (wrapped m e)

abbrev pub wrap_error : {S A : Type 0} → Text → Act S A → Act S A
wrap_error m act s = let (r, s') = act s in (wrap_result m r, s')

abbrev pub from_result : {S A : Type 0} → Result A → Act S A
from_result r s = (r, s)

pub act_cases :
    {S : Type 0} (p : Result (Unit {0}) × S)
    → ((s : S) × (p ≡ (ok tt, s))) ⊎ ((e : Error) × (s : S) × (p ≡ (err e, s)))
act_cases (ok u, s) = inl (s, refl)
act_cases (err e, s) = inr (e, s, refl)

-- A chain that succeeds went through its first call.
pub and_then-ok :
    {S A B : Type 0} (r : Result A × S) (f : A → Act S B) (b : B) (s : S)
    → and_then r f ≡ (ok b, s)
    → (a : A) × (s1 : S) × (r ≡ (ok a, s1)) × (f a s1 ≡ (ok b, s))
and_then-ok (ok a, s1) f b s e = (a, s1, refl, e)
and_then-ok (err x, s1) f b s e = cc

-- `os.DirEntry`
pub record DirEntry : Type 0 where
  pub name : Text
  pub is_dir : Bool

pub record Host : Type 1 where
  pub State : Type 0
  -- `fileutils.FileExists`
  pub file_exists : Text → State → Result Bool
  -- `os.Remove`, `os.Create` and the Close after it, `fileutils.MoveFile`
  pub remove : Text → Act State (Unit {0})
  pub create : Text → Act State (Unit {0})
  pub move_file : Text → Text → Act State (Unit {0})
  -- `fileutils.RemoveFile`, which does not fail for a missing file
  pub remove_file : Text → Act State (Unit {0})
  -- `fileutils.EnsureDirectoryExists`
  pub ensure_directory : Text → Act State (Unit {0})
  -- `pgbackrest` with its environment and its arguments, run to the end
  pub pgbackrest : List Text → List Text → Act State (Unit {0})
  -- the same with what it prints
  pub pgbackrest_output : List Text → List Text → Act State Text
  -- `filepath.WalkDir` at a directory: the entries that it calls back for below it, in its order, if
  -- the directory can be read
  pub list_directory : Text → State → Option (List DirEntry)

-- A file that was created is there, a file that was removed is not, and no other file is touched.
pub record IsLawful (h : Host) : Type 0 where
  pub exists-create :
      (s s' : h.State) (p q : Text)
      → h.create p s ≡ (ok tt, s')
      → h.file_exists q s' ≡ (if str_eq p q then ok true else h.file_exists q s)
  pub exists-remove :
      (s s' : h.State) (p q : Text)
      → h.remove p s ≡ (ok tt, s')
      → h.file_exists q s' ≡ (if str_eq p q then ok false else h.file_exists q s)
