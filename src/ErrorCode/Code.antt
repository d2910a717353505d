-- ===== src/ErrorCode/Code.antt =====
-- `GetCode` and `CodeEqual`.
use fancy_go.Base.{◌≡◌, refl, List, [], ◌∷◌, Option, none, some, arith, if◌then◌else◌}
use fancy_go.Base.Int.{ℤ, pos, negsuc, eq_int}
use fancy_go.ErrorCode.Types.{
  Errors, Err, with_code, with_stack, retryable, leaf, caused, code_of, cause_of,
}

-- -1
abbrev pub no_code : ℤ
no_code = negsuc 0

-- A code that `GetCode` returns at once.
unfoldable pub chosen : Option ℤ → Option ℤ
chosen none = none
chosen (some c) = if eq_int c no_code then none else some c

abbrev pub or_else : Option ℤ → ℤ → ℤ
or_else none d = d
or_else (some c) d = c

module _ {lib : Errors} where
  -- The loop of `GetCode`: the causes are walked until one has a code other than -1.
  unfoldable pub get_code_loop : Err lib → ℤ
  unfolding chosen
  get_code_loop (with_code c x e) = or_else (chosen (some c)) (get_code_loop e)
  get_code_loop (with_stack f e) = get_code_loop e
  get_code_loop (retryable b e) = no_code
  get_code_loop (leaf f) = or_else (chosen (lib.code_method f)) no_code
  get_code_loop (caused f e) = or_else (chosen (lib.code_method f)) (get_code_loop e)

  unfoldable pub get_code : Option (Err lib) → ℤ
  get_code none = pos 0
  get_code (some e) = get_code_loop e

  -- The error and its causes, outermost first.
  unfoldable pub chain : Err lib → List (Err lib)
  chain (with_code c x e) = with_code c x e ∷ chain e
  chain (with_stack f e) = with_stack f e ∷ chain e
  chain (retryable b e) = retryable b e ∷ []
  chain (leaf f) = leaf f ∷ []
  chain (caused f e) = caused f e ∷ chain e

  -- The next error of the chain is what `Cause` returns.
  chain-cause_of :
      (e : Err lib) → chain e ≡ e ∷ (elim (cause_of e) [ none ↦ [] | some d ↦ chain d ])
  unfolding chain cause_of
  chain-cause_of (with_code c x e) = refl
  chain-cause_of (with_stack f e) = refl
  chain-cause_of (retryable b e) = refl
  chain-cause_of (leaf f) = refl
  chain-cause_of (caused f e) = refl

  -- The first code other than -1 in a list of errors, and -1 if there is none.
  unfoldable pub first_code : List (Err lib) → ℤ
  first_code [] = no_code
  first_code (e ∷ es) = or_else (chosen (code_of e)) (first_code es)

  -- GetCode of an error is the first code other than -1 among the error and its causes, outermost
  -- first, and -1 if there is none.
  pub get_code-chain : (e : Err lib) → get_code (some e) ≡ first_code (chain e)
  unfolding get_code get_code_loop chain first_code code_of
  get_code-chain (with_code c x e) = ground (arith, get_code-chain e)
  get_code-chain (with_stack f e) = get_code-chain e
  get_code-chain (retryable b e) = refl
  get_code-chain (leaf f) = refl
  get_code-chain (caused f e) = ground (arith, get_code-chain e)
