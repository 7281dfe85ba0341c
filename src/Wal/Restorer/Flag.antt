-- ===== src/Wal/Restorer/Flag.antt =====
-- The flag for the end of the WAL stream, a file in the spool, over a lawful host.
use cnpg_plugin_pgbackrest.Base.{
  ◌≡◌, inl, inr, sym, ap, ◌∙◌, subst, Bool, true, false, Text, str_eq_self, Result, result_cases,
  ok, err, Error, if◌then◌else◌, List,
}
use cnpg_plugin_pgbackrest.Go.Paths
use cnpg_plugin_pgbackrest.Host.{Host, IsLawful, and_then}
use cnpg_plugin_pgbackrest.Wal.Spool
use cnpg_plugin_pgbackrest.Wal.Spool.{as_non_existent}
use cnpg_plugin_pgbackrest.Wal.Restorer.{
  end_of_wal_stream_flag_filename, is_end_of_wal_stream, set_end_of_wal_stream, touch_unless,
  wrap_check, reset_end_of_wal_stream, map_error,
}

-- The file that stands for the flag.
abbrev pub flag_path : Text → Text
flag_path spool = Paths.join spool (Paths.base end_of_wal_stream_flag_filename)

not_ok : {x : Error} → (let r : Result (Unit {0}) = err x in r ≡ ok tt) → ⊥
not_ok e = cc

module _ (h : Host) (spool : Text) (env : List Text) where
  pub is_end-of :
      (s : h.State) (b : Bool)
      → h.file_exists (flag_path spool) s ≡ ok b
      → is_end_of_wal_stream h spool env s ≡ (ok b, s)
  unfolding is_end_of_wal_stream Spool.contains_wal wrap_check
  is_end-of s b e = rw e

  is_end-err :
      (s : h.State) (x : Error)
      → h.file_exists (flag_path spool) s ≡ err x
      → is_end_of_wal_stream h spool env s ≡ (wrap_check h spool env (err x), s)
  unfolding is_end_of_wal_stream Spool.contains_wal
  is_end-err s x e = rw e

  pub reset-removed :
      (s s' : h.State)
      → h.remove (flag_path spool) s ≡ (ok tt, s')
      → reset_end_of_wal_stream h spool env s ≡ (ok tt, s')
  unfolding reset_end_of_wal_stream Spool.remove map_error as_non_existent
  reset-removed s s' e = rw e

  set_step :
      (s : h.State) (r : Result Bool)
      → is_end_of_wal_stream h spool env s ≡ (r, s)
      → set_end_of_wal_stream h spool env s ≡ and_then (r, s) (touch_unless h spool env)
  unfolding set_end_of_wal_stream
  set_step s r e = rw e

-- After a call of `SetEndOfWALStream` that succeeds, the file of the flag is there.
pub set_leaves_flag :
    (h : Host)
    → IsLawful h
    → (spool : Text) (env : List Text) (s s' : h.State)
    → Paths.clean (flag_path spool) ≡ flag_path spool
    → set_end_of_wal_stream h spool env s ≡ (ok tt, s')
    → h.file_exists (flag_path spool) s' ≡ ok true
unfolding touch_unless wrap_check Spool.touch
set_leaves_flag h lawful spool env s s' clean e =
    let path = flag_path spool in
    elim (result_cases (h.file_exists path s)) [
      | inl (true, there) ↦
          let done =
            sym (set_step h spool env s (ok true) (is_end-of h spool env s true there)) ∙ e in
          subst (λ x. h.file_exists path x ≡ ok true) (ap (λ r. r.1) done) there
      | inl (false, missing) ↦
          let done =
            sym (set_step h spool env s (ok false) (is_end-of h spool env s false missing)) ∙ e in
          let created : h.create path s ≡ (ok tt, s') =
            subst (λ p. h.create p s ≡ (ok tt, s')) clean done in
          lawful.exists-create s s' path path created
          ∙ ap (λ b. if b then ok true else h.file_exists path s) (str_eq_self path)
      | inr (x, failed) ↦
          let done =
            sym (
              set_step h spool env s (wrap_check h spool env (err x))
                (is_end-err h spool env s x failed))
            ∙ e in
          absurd (not_ok (ap (λ r. r.0) done))
    ]
