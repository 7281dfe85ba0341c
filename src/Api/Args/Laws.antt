-- ===== src/Api/Args/Laws.antt =====
-- What the user's arguments can and cannot do to the plugin's options.
use mathlib.Core.List.{Sublistᴰ}
use cnpg_plugin_pgbackrest.Base.{
  ◌≡◌, refl, sym, ◌∙◌, true, false, List, [], ◌∷◌, ◌++◌, append_assoc, append-nil, Text,
  str_eq_self, contains, is_nil, if◌then◌else◌, arith, inl, inr, Bool-cases, subst, All,
}
use cnpg_plugin_pgbackrest.Go.Strings.{before_eq}
use cnpg_plugin_pgbackrest.Api.Args.{
  option_keys, skips, append_args_loop, append_additional_command_args,
}
use cnpg_plugin_pgbackrest.Base.Members.{contains-append}

-- An argument that may follow the options: its key is not empty and no option has it.
abbrev pub IsFresh : List Text → Text → Type 0
IsFresh options arg =
    (is_nil (before_eq arg) ≡ false)
    × (contains options (before_eq arg) ≡ false)
    × (option_keys options (before_eq arg) ≡ false)

-- The arguments that the loop keeps, in their order.
unfoldable pub kept : List Text → List Text → List Text → List Text
kept initial [] options = []
kept initial (arg ∷ args) options =
    let fewer = kept initial args options in
    let more = arg ∷ kept initial args (options ++ arg ∷ []) in
    if skips initial options arg then fewer else more

module _ (initial : List Text) where
  pub loop-kept :
      (args options : List Text)
      → append_args_loop initial args options ≡ options ++ kept initial args options
  unfolding append_args_loop kept
  loop-kept [] options = sym (append-nil options)
  loop-kept (arg ∷ args) options = elim (Bool-cases (skips initial options arg)) [
    | inl skip ↦ rw skip (loop-kept args options)
    | inr keep ↦ rw keep (
        loop-kept args (options ++ arg ∷ [])
        ∙ append_assoc options (arg ∷ []) (kept initial args (options ++ arg ∷ [])))
  ]

  kept-Sublist : (args options : List Text) → Sublistᴰ (kept initial args options) args
  unfolding kept
  kept-Sublist [] options = Sublistᴰ.slnil
  kept-Sublist (arg ∷ args) options = elim (Bool-cases (skips initial options arg)) [
    | inl skip ↦ rw skip (Sublistᴰ.cons (kept-Sublist args options))
    | inr keep ↦ rw keep (Sublistᴰ.cons-cons refl (kept-Sublist args (options ++ arg ∷ [])))
  ]

  -- The loop runs on options that begin with the initial ones.
  skips-IsFresh :
      (acc : List Text) (arg : Text)
      → skips initial (initial ++ acc) arg ≡ false
      → IsFresh initial arg
  unfolding skips
  skips-IsFresh acc arg h =
      (ground arith, ground (arith, contains-append initial acc (before_eq arg)), ground arith)

  kept-IsFresh : (args acc : List Text) → All (IsFresh initial) (kept initial args (initial ++ acc))
  unfolding kept
  kept-IsFresh [] acc = tt
  kept-IsFresh (arg ∷ args) acc = elim (Bool-cases (skips initial (initial ++ acc) arg)) [
    | inl skip ↦ rw skip (kept-IsFresh args acc)
    | inr keep ↦
        rw (keep, append_assoc) (skips-IsFresh acc arg keep, kept-IsFresh args (acc ++ arg ∷ []))
  ]

  pub loop_nil : (options : List Text) → append_args_loop initial [] options ≡ options
  unfolding append_args_loop
  loop_nil options = refl

  pub loop_skip :
      (arg : Text) (args options : List Text)
      → skips initial options arg ≡ true
      → append_args_loop initial (arg ∷ args) options ≡ append_args_loop initial args options
  unfolding append_args_loop
  loop_skip arg args options h = rw h

  pub loop_keep :
      (arg : Text) (args options : List Text)
      → skips initial options arg ≡ false
      → append_args_loop initial (arg ∷ args) options
        ≡ append_args_loop initial args (options ++ arg ∷ [])
  unfolding append_args_loop
  loop_keep arg args options h = rw h

  loop-append :
      (xs ys options : List Text)
      → append_args_loop initial (xs ++ ys) options
        ≡ append_args_loop initial ys (append_args_loop initial xs options)
  unfolding append_args_loop
  loop-append [] ys options = refl
  loop-append (x ∷ xs) ys options = loop-append xs ys _

  skips-append :
      (options more : List Text) (arg : Text)
      → skips initial options arg ≡ true
      → skips initial (options ++ more) arg ≡ true
  unfolding skips
  skips-append options more arg h = ground (arith, contains-append options more (before_eq arg))

  skips-kept :
      (options : List Text) (v : Text)
      → before_eq v ≡ v
      → skips initial (options ++ v ∷ []) v ≡ true
  unfolding skips contains
  skips-kept options v e = ground (
    arith,
    contains-append options (v ∷ []) (before_eq v),
    contains-append options (v ∷ []) v,
    str_eq_self v,
  )

  -- Whatever stands between, an argument without `=` is skipped the second time.
  skips_again :
      (v : Text) (ys options : List Text)
      → before_eq v ≡ v
      → skips initial (append_args_loop initial (v ∷ ys) options) v ≡ true
  skips_again v ys options e = elim (Bool-cases (skips initial options v)) [
    | inl skip ↦
        rw (loop_skip v ys options skip, loop-kept ys options)
          (skips-append options (kept initial ys options) v skip)
    | inr keep ↦
        rw (loop_keep v ys options keep, loop-kept ys (options ++ v ∷ []))
          (skips-append (options ++ v ∷ []) (kept initial ys (options ++ v ∷ [])) v
            (skips-kept options v e))
  ]

-- The plugin's options come first and unchanged. Behind them come some of the user's arguments, in
-- their order: only ones whose key is not empty, is no option and is the key of no option.
pub append_additional_command_args_lem :
    (args options : List Text)
    → (extra : List Text) × (append_additional_command_args args options ≡ options ++ extra)
      × Sublistᴰ extra args
      × All (IsFresh options) extra
unfolding append_additional_command_args
append_additional_command_args_lem args options = (
  kept options args options,
  loop-kept options args options,
  kept-Sublist options args options,
  subst (λ o. All (IsFresh options) (kept options args o)) (append-nil options)
      (kept-IsFresh options args []),
)

-- An argument without `=` is appended at most once: where it stands a second time, even as the
-- separate value of another option, it is dropped, whatever the arguments between and before.
pub repeated_argument_lost :
    (options xs ys : List Text) (v : Text)
    → before_eq v ≡ v
    → append_additional_command_args (xs ++ ((v ∷ ys) ++ v ∷ [])) options
      ≡ append_additional_command_args (xs ++ (v ∷ ys)) options
unfolding append_additional_command_args
repeated_argument_lost options xs ys v e =
    let before = append_args_loop options xs options in
    loop-append options xs ((v ∷ ys) ++ v ∷ []) options
    ∙ loop-append options (v ∷ ys) (v ∷ []) before
    ∙ loop_skip options v [] (append_args_loop options (v ∷ ys) before)
        (skips_again options v ys before e)
    ∙ loop_nil options (append_args_loop options (v ∷ ys) before)
    ∙ sym (loop-append options xs (v ∷ ys) options)
