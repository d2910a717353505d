-- ===== src/Server/Serve.antt =====
-- net-filter/json-rpc/json-rpc-server.go: what `Serve` returns, and the check of handlers.
use fancy_go.Base.{
  ◌≡◌, Bool, true, false, List, [], ◌∷◌, ◌++◌, Option, none, some, arith, Bytes, codes,
  Option-cases, inl, inr, if◌then◌else◌,
}
use fancy_go.ErrorCode.Types.{Errors, Err, leaf, pkg_wrap}
use fancy_go.Server.State.{Api, Session, step, write}

module _ {lib : Errors} where
  -- A turn of the writing goroutine with a message, from the error of `WriteCtx` and the callback of
  -- the message: the error with which the goroutine ends, or none if it goes on.
  unfoldable pub writer_turn :
      Option (Err lib) → Option (Option (Err lib) → Option (Err lib)) → Option (Err lib)
  writer_turn failed none = elim failed [
    | none ↦ none
    | some e ↦ some (pkg_wrap e (codes "write message error"))
  ]
  writer_turn failed (some cb) = elim (cb failed) [
    | some e ↦ some (pkg_wrap e (codes "msg write callback error"))
    | none ↦ elim failed [ none ↦ none | some e ↦ some (pkg_wrap e (codes "write message error")) ]
  ]

  -- The writing goroutine over the messages that it takes; `none` if it has not ended with an error.
  -- What it ends with is stored in `writeError`.
  unfoldable pub writer_error :
      List (Option (Err lib) × Option (Option (Err lib) → Option (Err lib))) → Option (Err lib)
  unfolding writer_turn
  writer_error [] = none
  writer_error ((failed, cb) ∷ turns) =
      let rest = writer_error turns in
      elim (writer_turn failed cb) [ some e ↦ some e | none ↦ rest ]

  -- What `Serve` returns when its loop ends, by the error of `ReadCtx` and what `writeError` holds.
  unfoldable pub serve_result : Err lib → Option (Err lib) → Err lib
  serve_result read none = pkg_wrap read (codes "read message error")
  serve_result read (some e) = pkg_wrap e (codes "write error")

  -- The method that checks a handler by its result types; `same` compares them with the type of
  -- `funcMap`, whose name is `map_type`.
  unfoldable pub internal_static_check_handle_func :
      {T : Type 0} → (T → Bool) → Bytes → List T → Option (Err lib)
  internal_static_check_handle_func same map_type (out ∷ []) = elim (same out) [
    | true ↦ none
    | false ↦
        some
          (leaf (lib.new (codes "json rpc handler must have exactly a param of type " ++ map_type)))
  ]
  internal_static_check_handle_func same map_type outs =
      some
        (leaf (lib.new (codes "json rpc handler must have exactly a param of type " ++ map_type)))

abbrev is_error : {lib : Errors} → Option (Err lib) → Bool
is_error none = false
is_error (some e) = true

module _ {lib : Errors} (api : Api lib) where
  -- The step of a session in which the writing goroutine writes a message with a callback ends that
  -- goroutine exactly if its turn gives an error.
  step-writer_turn :
      (s s' : Session api) (failed : Option (Err lib)) (cb : Option (Err lib) → Option (Err lib))
      → step api s (write (is_error failed) (is_error (cb failed))) ≡ some s'
      → s'.writer ≡ (if is_error (writer_turn failed (some cb)) then false else true)
  unfolding step writer_turn
  step-writer_turn s s' none cb h = elim (Option-cases (cb none)) [
    | inl fine ↦ ground (arith, fine)
    | inr (e, bad) ↦ ground (arith, bad)
  ]
  step-writer_turn s s' (some err) cb h = elim (Option-cases (cb (some err))) [
    | inl fine ↦ ground (arith, fine)
    | inr (e, bad) ↦ ground (arith, bad)
  ]
