-- ===== src/ErrorCode/Print.antt =====
-- The `Format` methods of error-code/error-code.go and error-code/with-stack.go.
use mathlib.Core.List.{reverse, reverse-cons}
use fancy_go.Base.{
  ◌≡◌, sym, ap, ◌∙◌, Bool, true, false, List, [], ◌∷◌, ◌++◌, Bytes, append_assoc, append-nil,
}
use fancy_go.ErrorCode.Types.{
  Errors, Err, with_code, with_stack, retryable, leaf, caused, error_text,
}

-- The verbs of package fmt; `v` with or without the flag for more detail.
pub data Verb : Type 0 where
  v : Bool → Verb
  s : Verb
  q : Verb
  other : Verb

-- What package fmt and pkg/errors print: a text in quotes, a frame with its place, an error of another
-- package in detail, from its cause in detail if it has one.
pub record Prints (lib : Errors) : Type 0 where
  pub quote : Bytes → Bytes
  pub frame_detail : lib.Frame → Bytes
  pub leaf_detail : lib.Foreign → Bytes
  pub outer_detail : lib.Foreign → Bytes → Bytes

module _ {lib : Errors} (prints : Prints lib) where
  open prints use {quote, frame_detail, leaf_detail, outer_detail}

  -- `fmt.Fprintf` with `%+v`: the two wrappers have their own `Format`, the mark of `SetRetryable`
  -- has none, so its text is printed.
  unfoldable pub print_detail : Err lib → Bytes
  unfolding error_text
  print_detail (with_code c x e) = print_detail e
  print_detail (with_stack f e) = print_detail e ++ frame_detail f
  print_detail (retryable b e) = error_text e
  print_detail (leaf f) = leaf_detail f
  print_detail (caused f e) = outer_detail f (print_detail e)

  -- `Format` of a coded error.
  unfoldable pub format_code : Verb → Err lib → Bytes
  unfolding print_detail error_text
  format_code (v true) err = print_detail err
  format_code (v false) err = error_text err
  format_code s err = error_text err
  format_code q err = quote (error_text err)
  format_code other err = []

  -- `Format` of an error with a stack.
  unfoldable pub format_stack : Verb → lib.Frame → Err lib → Bytes
  unfolding print_detail error_text
  format_stack (v true) caller err = print_detail err ++ frame_detail caller
  format_stack (v false) caller err = error_text err
  format_stack s caller err = error_text err
  format_stack q caller err = quote (error_text err)
  format_stack other caller err = []

  -- The error under the program's wrappers, and their frames, the outermost first.
  abbrev core : Err lib → Err lib
  core (with_code c x e) = core e
  core (with_stack f e) = core e
  core (retryable b e) = retryable b e
  core (leaf f) = leaf f
  core (caused f e) = caused f e

  abbrev frames : Err lib → List lib.Frame
  frames (with_code c x e) = frames e
  frames (with_stack f e) = f ∷ frames e
  frames (retryable b e) = []
  frames (leaf f) = []
  frames (caused f e) = []

  abbrev details : List lib.Frame → Bytes
  details [] = []
  details (f ∷ fs) = frame_detail f ++ details fs

  details-last :
      (fs : List lib.Frame) (f : lib.Frame) → details (fs ++ f ∷ []) ≡ details fs ++ frame_detail f
  details-last [] f = append-nil (frame_detail f)
  details-last (g ∷ fs) f =
      ap (λ (b : Bytes). frame_detail g ++ b) (details-last fs f)
      ∙ sym (append_assoc (frame_detail g) (details fs) (frame_detail f))

  -- In detail an error prints as the error under the program's wrappers does, and after it the frames
  -- of the wrappers, the innermost first.
  print_detail-core :
      (e : Err lib) → print_detail e ≡ print_detail (core e) ++ details (reverse (frames e))
  unfolding print_detail
  print_detail-core (with_code c x e) = print_detail-core e
  print_detail-core (with_stack f e) =
      ap (λ (b : Bytes). b ++ frame_detail f) (print_detail-core e)
      ∙ (append_assoc (print_detail (core e)) (details (reverse (frames e))) (frame_detail f)
          ∙ ap (λ (b : Bytes). print_detail (core e) ++ b)
              (sym (ap details (reverse-cons f (frames e)) ∙ details-last (reverse (frames e)) f)))
  print_detail-core (retryable b e) = sym (append-nil (error_text e))
  print_detail-core (leaf f) = sym (append-nil (leaf_detail f))
  print_detail-core (caused f e) = sym (append-nil (outer_detail f (print_detail e)))
