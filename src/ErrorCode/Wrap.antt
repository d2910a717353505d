-- ===== src/ErrorCode/Wrap.antt =====
-- `NewError`, `From`, `Wrap`, the methods of `withCode`, and `ToResponse`. A `CodedError` is a
-- `*withCode`, which no other type of the program implements.
use fancy_go.Base.{Bool, List, [], ◌∷◌, Option, none, some, if◌then◌else◌, Bytes, codes}
use fancy_go.Base.Dict.{Dict, insert}
use fancy_go.Base.Int.{ℤ, pos, eq_int}
use fancy_go.ErrorCode.Types.{Errors, Err, with_code, with_stack, leaf, caused, error_text}
use fancy_go.ErrorCode.Code.{get_code}

module _ {V : Type 0} where
  -- `for k, v := range data { extra[k] = v }`, in an order that Go leaves open: here from the end.
  unfoldable pub put_all : Dict V → Dict V → Dict V
  put_all extra [] = extra
  put_all extra ((k, v) ∷ data') = insert k v (put_all extra data')

  -- `copyExtra`
  unfoldable pub copy_extra : Dict V → Dict V
  unfolding put_all
  copy_extra extra = put_all [] extra

-- A value of type `*withCode`.
pub record WithCode (lib : Errors) : Type 0 where
  pub code : ℤ
  pub extra : Dict lib.Value
  pub error : Err lib

module _ {lib : Errors} where
  abbrev pub as_error : WithCode lib → Err lib
  as_error n = with_code n.code n.extra n.error

  unfoldable pub with_extra : WithCode lib → Bytes → lib.Value → WithCode lib
  unfolding copy_extra
  with_extra n key value = record n { extra = insert key value (copy_extra n.extra) }

  unfoldable pub with_extra_map : WithCode lib → Dict lib.Value → WithCode lib
  unfolding copy_extra
  with_extra_map n data' = record n { extra = put_all (copy_extra n.extra) data' }

  unfoldable pub code_equal : WithCode lib → Option (Err lib) → Bool
  code_equal n err = eq_int (get_code err) n.code

  -- The methods `Wrap` and `WrapWith`; `caller` is what `getCaller` returns.
  unfoldable pub wrap_method : lib.Frame → WithCode lib → Option (Err lib) → Option (WithCode lib)
  unfolding copy_extra
  wrap_method caller n none = none
  wrap_method caller n (some err) = some (record {
    code = n.code;
    extra = copy_extra n.extra;
    error = with_stack caller (caused (lib.with_message (error_text (as_error n))) err);
  })

  unfoldable pub wrap_with :
      lib.Frame → WithCode lib → Option (Err lib) → Bytes → Option (WithCode lib)
  unfolding copy_extra
  wrap_with caller n none s = none
  wrap_with caller n (some err) s = some (record {
    code = n.code;
    extra = copy_extra n.extra;
    error =
        with_stack caller
          (caused (lib.with_message s) (caused (lib.with_message (error_text (as_error n))) err));
  })

  unfoldable pub new_error : lib.Frame → ℤ → Bytes → WithCode lib
  new_error caller code message = record {
    code = code;
    extra = [];
    error = with_stack caller (leaf (lib.new message));
  }

  unfoldable pub from : Option (Err lib) → Option (WithCode lib)
  from none = none
  from (some (with_code c x e)) = some (record { code = c; extra = x; error = e })
  from (some e) = some (record { code = get_code (some e); extra = []; error = e })

  -- `for _, e := range extra { ce = ce.WithExtraMap(e) }`
  unfoldable pub add_maps : WithCode lib → List (Dict lib.Value) → WithCode lib
  unfolding with_extra_map
  add_maps ce [] = ce
  add_maps ce (e ∷ es) = add_maps (with_extra_map ce e) es

  unfoldable pub wrap :
      lib.Frame → Option (Err lib) → Bytes → List (Dict lib.Value) → Option (WithCode lib)
  wrap caller none s extra = none
  wrap caller (some err) s extra =
      elim (from (some (with_stack caller (caused (lib.with_message s) err)))) [
        | none ↦ none
        | some ce ↦ some (add_maps ce extra)
      ]

  -- `From(err).WithExtra`; `none` is the nil dereference at a nil error.
  unfoldable pub with_extra_of : Option (Err lib) → Bytes → lib.Value → Option (WithCode lib)
  with_extra_of err key value = elim (from err) [
    | none ↦ none
    | some ce ↦ some (with_extra ce key value)
  ]

  unfoldable pub to_response : Option (Err lib) → Bool → ℤ × Bytes
  to_response none detail = (pos 0, codes "ok")
  to_response (some err) detail = elim (from (some err)) [
    | none ↦ (pos 0, [])
    | some ce ↦ if detail then (ce.code, error_text err) else (ce.code, error_text err)
  ]
