-- ===== src/Host/Memory.antt =====
-- A host in memory: the state is the list of the files that exist, and pgBackRest finds every WAL.
use mathlib.Core.List.{map}
use cnpg_plugin_pgbackrest.Base.{
  ◌≡◌, refl, sym, ap, ◌∙◌, Bool, true, false, List, [], ◌∷◌, some, Text, str_eq, str_eq_iff,
  contains, if◌then◌else◌, Result, ok, err, path_not_exist, arith,
}
use cnpg_plugin_pgbackrest.Host.{Host, IsLawful}

unfoldable pub erase : Text → List Text → List Text
unfolding str_eq
erase p [] = []
erase p (f ∷ fs) = let rest = erase p fs in if str_eq f p then rest else f ∷ rest

abbrev remove_in : Text → List Text → Result (Unit {0}) × List Text
remove_in p fs = if contains fs p then (ok tt, erase p fs) else (err path_not_exist, fs)

abbrev pub memory : Host
memory = record {
  State = List Text;
  file_exists = λ p fs. ok (contains fs p);
  remove = remove_in;
  create = λ p fs. (ok tt, p ∷ fs);
  move_file = λ p q fs. if contains fs p then (ok tt, q ∷ erase p fs) else (err path_not_exist, fs);
  remove_file = λ p fs. (ok tt, erase p fs);
  ensure_directory = λ p fs. (ok tt, fs);
  pgbackrest = λ env args fs. (ok tt, fs);
  pgbackrest_output = λ env args fs. (ok [], fs);
  list_directory = λ p fs. some (map (λ f. record { name = f; is_dir = false }) fs);
}

contains-erase :
    (p q : Text) (fs : List Text)
    → contains (erase p fs) q ≡ (if str_eq p q then false else contains fs q)
unfolding erase contains
contains-erase p q [] = ground arith
contains-erase p q (f ∷ fs) =
    ground (arith, contains-erase p q fs, str_eq_iff f p, str_eq_iff f q, str_eq_iff p q)

created :
    (s s' : List Text) (p q : Text)
    → (let r : Result (Unit {0}) × List Text = (ok tt, p ∷ s) in r ≡ (ok tt, s'))
    → ok (contains s' q) ≡ (if str_eq p q then ok true else ok (contains s q))
unfolding contains
created s s' p q e = let same : p ∷ s ≡ s' = ap (λ r. r.1) e in rw (sym same) (ground arith)

ok_if : (b c : Bool) → ok (if b then false else c) ≡ (if b then ok false else ok c)
ok_if true c = refl
ok_if false c = refl

removed_state : (fs fs' : List Text) (p : Text) → remove_in p fs ≡ (ok tt, fs') → fs' ≡ erase p fs
removed_state fs fs' p h = ground arith

pub memory-IsLawful : IsLawful memory
unfolding contains
memory-IsLawful = record {
  exists-create = λ s s' p q e. created s s' p q e;
  exists-remove = λ s s' p q e.
      rw (removed_state s s' p e)
        (ap ok (contains-erase p q s) ∙ ok_if (str_eq p q) (contains s q));
}
