-- ===== src/Index/Tests.antt =====
-- The index of a small vocabulary file.
use leitner.Common.{ℕ, ◌≡◌, refl, arith, List, [], ◌∷◌, codes}
use leitner.Common.{true, some, str_eq}
use leitner.Index.Make.{written, current, cmd_mkidx, mkidx_loop, is_entry, has_equals}
use leitner.Index.Lines.{text_of, IsLine, AreLines, Writes, counts, hashed, done, index_lines-mkidx}

abbrev three : List (List ℕ)
three = codes "a=b" ∷ codes "#c=" ∷ codes "d=" ∷ []

three_index :
    cmd_mkidx (codes "now") true (codes "new") (some (text_of three)) ≡ written (0 ∷ 8 ∷ [])
unfolding cmd_mkidx mkidx_loop is_entry has_equals text_of str_eq
three_index = refl

in_use : cmd_mkidx (codes "now") true (codes "now") (some (text_of three)) ≡ current
unfolding cmd_mkidx str_eq
in_use = refl

three-AreLines : AreLines three
unfolding AreLines IsLine
three-AreLines = (
  ((refl, (refl, (refl, tt))), omega arith, refl),
  (((refl, (refl, (refl, tt))), omega arith, refl), (((refl, (refl, tt)), omega arith, refl), tt)),
)

index_lines-mkidx_example :
    Writes
      (text_of three)
      (codes "a=b" ∷ codes "d=" ∷ [])
      (cmd_mkidx (codes "now") true (codes "new") (some (text_of three)))
unfolding text_of str_eq
index_lines-mkidx_example =
    index_lines-mkidx (codes "now") (codes "new") true three (codes "a=b" ∷ codes "d=" ∷ []) refl
      three-AreLines (omega arith)
      (counts (codes "a") (codes "b") (λ e. omega (arith, e))
        (hashed (codes "c=") (counts (codes "d") [] (λ e. omega (arith, e)) done)))
      (omega arith)
