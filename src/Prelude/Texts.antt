-- ===== src/Prelude/Texts.antt =====
-- The methods of `str` that the code calls, on the list of a text's code points.
use mathlib.Core.Path.{◌≡◌, refl, ap, ◌∙◌}
use mathlib.Core.Bool.{Bool, true, false, ◌&&◌, ◌||◌}
use mathlib.Core.Option.{Option, none, some}
use mathlib.Core.List.{[], ◌∷◌, ◌++◌}
use Prim.Native.Nat.{ℕ}
use native.Mathlib.Omega.{arith}
use misaka.Prelude.Tests.{if◌then◌else◌, ◌==◌, nat_eq, leb, Text}
use misaka.Prelude.Lists.{All}

-- char::is_whitespace
unfoldable pub is_whitespace : ℕ → Bool
is_whitespace c =
    (leb 9 c && leb c 13)
    || c == 32
    || c == 133
    || c == 160
    || c == 5760
    || (leb 8192 c && leb c 8202)
    || c == 8232
    || c == 8233
    || c == 8239
    || c == 8287
    || c == 12288

-- str::trim_start, trim_end and trim
unfoldable pub trim_start : Text → Text
trim_start [] = []
trim_start (c ∷ cs) = elim (is_whitespace c) [ true ↦ trim_start cs | false ↦ c ∷ cs ]

unfoldable pub trim_end : Text → Text
trim_end [] = []
trim_end (c ∷ cs) = elim (trim_end cs) [
  | [] ↦ if is_whitespace c then [] else c ∷ []
  | d ∷ ds ↦ c ∷ d ∷ ds
]

unfoldable pub trim : Text → Text
trim t = trim_end (trim_start t)

-- str::strip_prefix
unfoldable pub strip_prefix : Text → Text → Option Text
strip_prefix [] t = some t
strip_prefix (p ∷ ps) [] = none
strip_prefix (p ∷ ps) (c ∷ cs) = elim (p == c) [ true ↦ strip_prefix ps cs | false ↦ none ]

unfoldable pub IsWhitespace : ℕ → Type 0
IsWhitespace c = is_whitespace c ≡ true

unfoldable pub IsInk : ℕ → Type 0
IsInk c = is_whitespace c ≡ false

trim_start-append : (pre t : Text) → All IsWhitespace pre → trim_start (pre ++ t) ≡ trim_start t
unfolding trim_start IsWhitespace
trim_start-append [] t h = refl
trim_start-append (c ∷ pre) t h = rw (h.0, trim_start) (trim_start-append pre t h.1)

trim_end-All : (post : Text) → All IsWhitespace post → trim_end post ≡ []
unfolding trim_end IsWhitespace
trim_end-All [] h = refl
trim_end-All (c ∷ post) h = rw (trim_end-All post h.1, h.0) refl

trim_end-append : (t post : Text) → All IsInk t → All IsWhitespace post → trim_end (t ++ post) ≡ t
unfolding trim_end IsInk
trim_end-append [] post h k = trim_end-All post k
trim_end-append (c ∷ []) post h k = rw (trim_end-All post k, h.0) refl
trim_end-append (c ∷ d ∷ t) post h k = rw (trim_end-append (d ∷ t) post h.1 k) refl

trim_start_ink : (c : ℕ) (t : Text) → IsInk c → trim_start (c ∷ t) ≡ c ∷ t
unfolding IsInk trim_start
trim_start_ink c t h = rw (h, trim_start) refl

pub trim_padded :
    (pre t post : Text) (c : ℕ)
    → All IsWhitespace pre
    → All IsInk (c ∷ t)
    → All IsWhitespace post
    → trim (pre ++ ((c ∷ t) ++ post)) ≡ c ∷ t
unfolding trim
trim_padded pre t post c h i k =
    ap trim_end (trim_start-append pre ((c ∷ t) ++ post) h ∙ trim_start_ink c (t ++ post) i.0)
    ∙ trim_end-append (c ∷ t) post i k

pub strip_prefix-append : (p t : Text) → strip_prefix p (p ++ t) ≡ some t
unfolding strip_prefix
strip_prefix-append [] t = refl
strip_prefix-append (c ∷ p) t =
    let e : (c == c) ≡ true = ground arith in rw (e, strip_prefix) (strip_prefix-append p t)
