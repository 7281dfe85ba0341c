-- ===== src/Api/Args/Again.antt =====
-- The same arguments a second time.
use cnpg_plugin_pgbackrest.Base.{
  ◌≡◌, refl, sym, true, ◌||◌, List, [], ◌∷◌, ◌++◌, append_assoc, append-nil, Text, str_eq_self,
  contains, is_nil, arith, inl, inr, Bool-cases, subst, All,
}
use cnpg_plugin_pgbackrest.Go.Strings.{before_eq}
use cnpg_plugin_pgbackrest.Api.Args.{
  option_keys, skips, append_args_loop, append_additional_command_args,
}
use cnpg_plugin_pgbackrest.Base.Members.{contains-append}
use cnpg_plugin_pgbackrest.Api.Args.Laws.{kept, loop-kept, loop_skip, loop_keep}

option_keys-append :
    (xs ys : List Text) (t : Text)
    → option_keys (xs ++ ys) t ≡ (option_keys xs t || option_keys ys t)
unfolding option_keys
option_keys-append [] ys t = refl
option_keys-append (x ∷ xs) ys t = ground (arith, option_keys-append xs ys t)

-- An argument is settled if nothing more comes of it: its key is empty, or among the options.
abbrev pub IsSettled : List Text → Text → Type 0
IsSettled options arg =
    (is_nil (before_eq arg)
      || (contains options (before_eq arg) || option_keys options (before_eq arg)))
    ≡ true

IsSettled-append : (xs ys : List Text) (arg : Text) → IsSettled xs arg → IsSettled (xs ++ ys) arg
IsSettled-append xs ys arg h =
    ground (arith, contains-append xs ys (before_eq arg), option_keys-append xs ys (before_eq arg))

IsSettled-self : (xs : List Text) (arg : Text) → IsSettled (xs ++ arg ∷ []) arg
unfolding option_keys
IsSettled-self xs arg =
    ground (arith, option_keys-append xs (arg ∷ []) (before_eq arg), str_eq_self (before_eq arg))

module _ (initial : List Text) where
  loop-IsSettled :
      (args options : List Text) (arg : Text)
      → IsSettled options arg
      → IsSettled (append_args_loop initial args options) arg
  loop-IsSettled args options arg h =
      rw (loop-kept initial args options)
        (IsSettled-append options (kept initial args options) arg h)

  skips-IsSettled :
      (acc : List Text) (arg : Text)
      → skips initial (initial ++ acc) arg ≡ true
      → IsSettled (initial ++ acc) arg
  unfolding skips
  skips-IsSettled acc arg h = ground (arith, option_keys-append initial acc (before_eq arg))

  loop_settles :
      (args acc : List Text) → All (IsSettled (append_args_loop initial args (initial ++ acc))) args
  loop_settles [] acc = tt
  loop_settles (arg ∷ args) acc = elim (Bool-cases (skips initial (initial ++ acc) arg)) [
    | inl skip ↦
        subst (λ o. All (IsSettled o) (arg ∷ args))
          (sym (loop_skip initial arg args (initial ++ acc) skip))
          (
            loop-IsSettled args (initial ++ acc) arg (skips-IsSettled acc arg skip),
            loop_settles args acc,
          )
    | inr keep ↦
        subst (λ o. All (IsSettled o) (arg ∷ args))
          (sym (loop_keep initial arg args (initial ++ acc) keep))
          (
            loop-IsSettled args ((initial ++ acc) ++ arg ∷ []) arg
                (IsSettled-self (initial ++ acc) arg),
            subst (λ o. All (IsSettled (append_args_loop initial args o)) args)
                (sym (append_assoc initial acc (arg ∷ []))) (loop_settles args (acc ++ arg ∷ [])),
          )
  ]

loop_of_settled :
    (options args : List Text)
    → All (IsSettled options) args
    → append_args_loop options args options ≡ options
unfolding append_args_loop skips
loop_of_settled options [] h = refl
loop_of_settled options (arg ∷ args) h = rw h.0 (loop_of_settled options args h.1)

-- Each of the arguments is settled by what is appended: none is dropped for another reason.
pub append_additional_command_args-IsSettled :
    (args options : List Text) → All (IsSettled (append_additional_command_args args options)) args
unfolding append_additional_command_args
append_additional_command_args-IsSettled args options =
    subst (λ o. All (IsSettled (append_args_loop options args o)) args) (append-nil options)
      (loop_settles options args [])

-- Appending the same arguments again changes nothing.
pub append_additional_command_args_idem :
    (args options : List Text)
    → append_additional_command_args args (append_additional_command_args args options)
      ≡ append_additional_command_args args options
unfolding append_additional_command_args
append_additional_command_args_idem args options =
    loop_of_settled (append_args_loop options args options) args
      (append_additional_command_args-IsSettled args options)
